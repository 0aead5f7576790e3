-- ===== src/Listener/Release/Frees.antt =====
-- An answer is freed once, but for the array of a list of pairs.
use rpiweatherd.Base.{
  ℕ, ◌+◌, ◌≡◌, true, false, ◌||◌, ◌==◌, none, some, List, [], ◌∷◌, ◌++◌, length, ret, ◌>>=◌, arith,
}
use rpiweatherd.CLib.Heap.{Ptr, Live, count}
use rpiweatherd.CLib.Heap.Frees.{
  blocks, AreLive, Returns-ret, Frees, Frees-ret, Frees-free, Frees-seq,
}
use rpiweatherd.Data.Release.Frees.{
  entry_ptrs, list_ptrs, key_value_ptrs, entry_ptr_free-Frees, entrylist_free-Frees,
  key_value_list_free-Frees,
}
use rpiweatherd.Listener.Codes.{msgtype_fetch, msgtype_current, msgtype_stats, msgtype_config}
use rpiweatherd.Listener.Release.{
  PayloadPtrs, nothing, one_entry, entry_list, key_values, MessagePtrs, free_if, free_fetched,
  free_entry, free_key_values, free_data, free_answer,
}

abbrev pub payload_ptrs : PayloadPtrs → List Ptr
payload_ptrs nothing = []
payload_ptrs (one_entry at e) = entry_ptrs e ++ (some at ∷ [])
payload_ptrs (entry_list l) = list_ptrs l
payload_ptrs (key_values l) = key_value_ptrs l

abbrev pub message_ptrs : MessagePtrs → List Ptr
message_ptrs msg = (msg.fselectq ∷ []) ++ ((msg.fcountq ∷ []) ++ payload_ptrs msg.payload)

-- The array that is read and stays.
abbrev pub kept : PayloadPtrs → List ℕ
kept (key_values l) = l.pairs ∷ []
kept _ = []

-- `data` leads to what the type says, and its array is written as far as it is in use.
abbrev pub Carries : ℕ → PayloadPtrs → Type 0
Carries mtype nothing = ⊥
Carries mtype (one_entry at e) = mtype ≡ msgtype_current
Carries mtype (entry_list l) = (mtype ≡ msgtype_fetch) × (l.size ≡ length l.items)
Carries mtype (key_values l) =
    ((mtype == msgtype_stats || mtype == msgtype_config) ≡ true) × (l.length ≡ length l.items)

free_if-Frees : (keep : List ℕ) (p : Ptr) → Frees keep (p ∷ []) (free_if p)
unfolding free_if
free_if-Frees keep none = record { run = (Frees-ret keep).run }
free_if-Frees keep (some x) = Frees-free keep (some x)

free_data-Frees :
    (keep : List ℕ) (mtype : ℕ) (c s : Ptr) (p : PayloadPtrs)
    → Carries mtype p
    → Frees
        (kept p ++ keep)
        (payload_ptrs p)
        (free_data (record { mtype = mtype; fcountq = c; fselectq = s; payload = p }))
unfolding free_data free_fetched free_entry free_key_values
free_data-Frees keep mtype c s nothing h = elim h [ ]
free_data-Frees keep mtype c s (one_entry at e) h =
    rw h (record { run = (entry_ptr_free-Frees keep at e).run })
free_data-Frees keep mtype c s (entry_list l) h =
    rw (h.0) (record { run = (entrylist_free-Frees keep l h.1).run })
free_data-Frees keep mtype c s (key_values l) h =
    let (not_fetch, not_current) = others mtype h.0 in
    record {
      run = λ live a.
          rw (not_fetch, not_current, h.0)
            ((key_value_list_free-Frees (l.pairs ∷ keep) l h.1 (ground arith)).run live a);
    }
  where
    others :
        (t : ℕ)
        → (t == msgtype_stats || t == msgtype_config) ≡ true
        → ((t == msgtype_fetch) ≡ false) × ((t == msgtype_current) ≡ false)
    others t h = ground arith

-- A message whose `data` leads to what its type says. Where its two queries and the blocks of its
-- `data` are live, each as often as the message names it, and so is the array of a list of pairs,
-- what a worker does behind the answer returns, and has freed each of these blocks as often as
-- that, and nothing else, not even the array.
pub free_answer_lem :
    (msg : MessagePtrs) (live : Live)
    → Carries msg.mtype msg.payload
    → AreLive (message_ptrs msg) (kept msg.payload) live
    → (live' : Live) × (free_answer msg live ≡ ret live')
      × ((x : ℕ) → count x live' + count x (blocks (message_ptrs msg)) ≡ count x live)
unfolding free_answer
free_answer_lem msg live c h =
    let keep = kept msg.payload ++ [] in
    let f : Frees keep (message_ptrs msg) (free_answer msg) =
      Frees-seq keep (msg.fselectq ∷ []) (msg.fcountq ∷ payload_ptrs msg.payload)
        (free_if msg.fselectq) (λ live. free_if msg.fcountq live >>= free_data msg)
        (free_if-Frees _ msg.fselectq)
        (Frees-seq keep (msg.fcountq ∷ []) (payload_ptrs msg.payload) (free_if msg.fcountq)
          (free_data msg) (free_if-Frees _ msg.fcountq)
          (free_data-Frees [] msg.mtype msg.fcountq msg.fselectq msg.payload c)) in
    Returns-ret (message_ptrs msg) live (free_answer msg live) (f.run live (widen msg.payload h))
  where
    widen :
        (p : PayloadPtrs)
        → AreLive (message_ptrs msg) (kept p) live
        → AreLive (message_ptrs msg) (kept p ++ []) live
    widen nothing h = h
    widen (one_entry at e) h = h
    widen (entry_list l) h = h
    widen (key_values l) h = h
