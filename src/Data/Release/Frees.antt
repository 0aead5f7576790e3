-- ===== src/Data/Release/Frees.antt =====
-- Which blocks each function frees, and which it reads.
use rpiweatherd.Base.{ℕ, ◌+◌, ◌≡◌, ◌<◌, none, some, List, [], ◌∷◌, ◌++◌, length, ret, ◌>>=◌, arith}
use rpiweatherd.CLib.Heap.{Ptr, count, free, load}
use rpiweatherd.CLib.Heap.Frees.{
  blocks, count-append, Frees, Frees-ret, Frees-free, Frees-seq, Frees-load,
}
use rpiweatherd.Data.Release.{
  EntryPtrs, EntryListPtrs, KeyValuePairPtrs, KeyValueListPtrs, free_field, entry_free,
  entry_ptr_free, free_entries, entrylist_free, free_unless_null, key_value_pair_free, free_pairs,
  key_value_list_free,
}

abbrev pub entry_ptrs : EntryPtrs → List Ptr
entry_ptrs e = e.record_date ∷ e.location ∷ e.device_name ∷ []

abbrev pub entries_ptrs : List EntryPtrs → List Ptr
entries_ptrs [] = []
entries_ptrs (e ∷ es) = entry_ptrs e ++ entries_ptrs es

abbrev pub list_ptrs : EntryListPtrs → List Ptr
list_ptrs l = entries_ptrs l.items ++ (some l.entries ∷ some l.address ∷ [])

abbrev pub pair_ptrs : KeyValuePairPtrs → List Ptr
pair_ptrs p = p.key ∷ p.value ∷ []

abbrev pub pairs_ptrs : List KeyValuePairPtrs → List Ptr
pairs_ptrs [] = []
pairs_ptrs (p ∷ ps) = pair_ptrs p ++ pairs_ptrs ps

-- Without the array.
abbrev pub key_value_ptrs : KeyValueListPtrs → List Ptr
key_value_ptrs l = pairs_ptrs l.items ++ (some l.address ∷ [])

here : (at : ℕ) (p : Ptr) (xs : List ℕ) → 0 < count at (blocks (p ∷ [])) + count at (at ∷ xs)
here at none xs = ground arith
here at (some x) xs = ground arith

-- A field of a block that is kept.
free_field-Frees :
    (keep : List ℕ) (at : ℕ) (p : Ptr) → 0 < count at keep → Frees keep (p ∷ []) (free_field at p)
free_field-Frees keep at p h =
    Frees-load keep (p ∷ []) at (free p) (omega (arith, h)) (Frees-free keep p)

pub entry_free-Frees :
    (keep : List ℕ) (at : ℕ) (e : EntryPtrs)
    → 0 < count at keep
    → Frees keep (entry_ptrs e) (entry_free at e)
unfolding entry_free
entry_free-Frees keep at e h =
    Frees-seq keep (e.record_date ∷ []) (e.location ∷ e.device_name ∷ [])
      (free_field at e.record_date)
      (λ live. free_field at e.location live >>= free_field at e.device_name)
      (free_field-Frees _ at e.record_date
        (omega (arith, count-append at (blocks (e.location ∷ e.device_name ∷ [])) keep)))
      (Frees-seq keep (e.location ∷ []) (e.device_name ∷ []) (free_field at e.location)
        (free_field at e.device_name)
        (free_field-Frees _ at e.location
          (omega (arith, count-append at (blocks (e.device_name ∷ [])) keep)))
        (free_field-Frees keep at e.device_name h))

-- The order of blocks that are freed does not matter.
own : (at : ℕ) (keep : List ℕ) → 0 < count at (at ∷ keep)
own at keep = ground arith

pub entry_ptr_free-Frees :
    (keep : List ℕ) (at : ℕ) (e : EntryPtrs)
    → Frees keep (entry_ptrs e ++ (some at ∷ [])) (entry_ptr_free at e)
unfolding entry_ptr_free
entry_ptr_free-Frees keep at e =
    Frees-seq keep (entry_ptrs e) (some at ∷ []) (entry_free at e) (free (some at))
      (entry_free-Frees (at ∷ keep) at e (own at keep)) (Frees-free keep (some at))

free_entries-Frees :
    (keep : List ℕ) (at : ℕ) (es : List EntryPtrs)
    → 0 < count at keep
    → Frees keep (entries_ptrs es) (free_entries at (length es) es)
unfolding free_entries
free_entries-Frees keep at [] h = Frees-ret keep
free_entries-Frees keep at (e ∷ es) h =
    Frees-seq keep (entry_ptrs e) (entries_ptrs es) (entry_free at e)
      (free_entries at (length es) es)
      (entry_free-Frees _ at e (omega (arith, count-append at (blocks (entries_ptrs es)) keep)))
      (free_entries-Frees keep at es h)

pub entrylist_free-Frees :
    (keep : List ℕ) (l : EntryListPtrs)
    → l.size ≡ length l.items
    → Frees keep (list_ptrs l) (entrylist_free l)
unfolding entrylist_free
entrylist_free-Frees keep l e =
    Frees-seq keep (entries_ptrs l.items) (some l.entries ∷ some l.address ∷ [])
      (load l.address (free_entries l.entries l.size l.items))
      (λ live. free_field l.address (some l.entries) live >>= free (some l.address))
      (rw e (
        Frees-load (l.entries ∷ l.address ∷ keep) (entries_ptrs l.items) l.address
          (free_entries l.entries (length l.items) l.items) (ground arith)
          (free_entries-Frees (l.entries ∷ l.address ∷ keep) l.entries l.items
            (own l.entries (l.address ∷ keep)))))
      (Frees-seq keep (some l.entries ∷ []) (some l.address ∷ [])
        (free_field l.address (some l.entries)) (free (some l.address))
        (free_field-Frees (l.address ∷ keep) l.address (some l.entries) (own l.address keep))
        (Frees-free keep (some l.address)))

free_unless_null-Frees :
    (keep : List ℕ) (at : ℕ) (p : Ptr)
    → 0 < count at keep
    → Frees keep (p ∷ []) (free_unless_null at p)
unfolding free_unless_null
free_unless_null-Frees keep at none h =
    Frees-load keep (none ∷ []) at ret (omega (arith, h)) (record { run = (Frees-ret keep).run })
free_unless_null-Frees keep at (some x) h = free_field-Frees keep at (some x) h

key_value_pair_free-Frees :
    (keep : List ℕ) (at : ℕ) (p : KeyValuePairPtrs)
    → 0 < count at keep
    → Frees keep (pair_ptrs p) (key_value_pair_free at p)
unfolding key_value_pair_free
key_value_pair_free-Frees keep at p h =
    Frees-seq keep (p.key ∷ []) (p.value ∷ []) (free_unless_null at p.key)
      (free_unless_null at p.value)
      (free_unless_null-Frees _ at p.key
        (omega (arith, count-append at (blocks (p.value ∷ [])) keep)))
      (free_unless_null-Frees keep at p.value h)

free_pairs-Frees :
    (keep : List ℕ) (at : ℕ) (ps : List KeyValuePairPtrs)
    → 0 < count at keep
    → Frees keep (pairs_ptrs ps) (free_pairs at (length ps) ps)
unfolding free_pairs
free_pairs-Frees keep at [] h = Frees-ret keep
free_pairs-Frees keep at (p ∷ ps) h =
    Frees-seq keep (pair_ptrs p) (pairs_ptrs ps) (key_value_pair_free at p)
      (free_pairs at (length ps) ps)
      (key_value_pair_free-Frees _ at p
        (omega (arith, count-append at (blocks (pairs_ptrs ps)) keep)))
      (free_pairs-Frees keep at ps h)

-- The array has to be live, and stays.
pub key_value_list_free-Frees :
    (keep : List ℕ) (l : KeyValueListPtrs)
    → l.length ≡ length l.items
    → 0 < count l.pairs keep
    → Frees keep (key_value_ptrs l) (key_value_list_free l)
unfolding key_value_list_free
key_value_list_free-Frees keep l e h =
    Frees-seq keep (pairs_ptrs l.items) (some l.address ∷ [])
      (load l.address (free_pairs l.pairs l.length l.items)) (free (some l.address))
      (rw e (
        Frees-load (l.address ∷ keep) (pairs_ptrs l.items) l.address
          (free_pairs l.pairs (length l.items) l.items) (ground arith)
          (free_pairs-Frees (l.address ∷ keep) l.pairs l.items (ground (arith, h)))))
      (Frees-free keep (some l.address))
