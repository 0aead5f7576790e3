-- ===== src/System/Types/Reads.antt =====
-- No message that a worker answers is read as what it is not.
use rpiweatherd.Base.{
  All, ℕ, ◌≡◌, ◌≢◌, refl, ℤ, pos, Bool, true, false, ◌||◌, Option, none, some, List, [], ◌∷◌, ◌++◌,
  ◌==◌, take, Bytes, codes, Outcome, ret, fault, ◌>>=◌, null_pointer, uninitialised, arith,
  if◌then◌else◌,
}
use mathlib.Core.Path.{subst}
use rpiweatherd.CLib.Text.{strcpy}
use rpiweatherd.Data.Entries.{Entry}
use rpiweatherd.Data.KeyValues.{KeyValuePair}
use rpiweatherd.Data.Json.{
  Call, Value, append_units, head_calls, field_key, print_key, entry_fields, put_fields,
  entry_to_json_value, put_entries, entrylist_to_json_value, put_pairs,
  key_value_list_to_json_value,
}
use rpiweatherd.Listener.Codes.{msgtype_fetch, msgtype_current, msgtype_stats, msgtype_config}
use rpiweatherd.Listener.Message.{Message, Payload, nothing, one_entry, entry_list, key_values}
use rpiweatherd.Listener.Table.{Services}
use rpiweatherd.Listener.Table.Types.{fits}
use rpiweatherd.Listener.Worker.{fetch_json, current_json, pairs_json, message_json}
use rpiweatherd.System.{State, Reach, here, next}
use rpiweatherd.System.Types.{Readable, IsTyped}
use rpiweatherd.System.Types.Steps.{Step-IsTyped}

-- Nothing is read as what it is not.
abbrev pub Sound : {A : Type 0} → Outcome A → Type 0
Sound m = m ≢ fault uninitialised

Sound-bind :
    {A B : Type 0} (m : Outcome A) (f : A → Outcome B)
    → Sound m
    → ((a : A) → Sound (f a))
    → Sound (m >>= f)
Sound-bind (ret a) f h k = k a
Sound-bind (fault why) f h k = λ e. h (cc)

Sound-if :
    {A : Type 0} (b : Bool) (x y : Outcome A)
    → (b ≡ true → Sound x)
    → (b ≡ false → Sound y)
    → Sound (if b then x else y)
Sound-if true x y hx hy = hx refl
Sound-if false x y hx hy = hy refl

Sound-ret : {A : Type 0} (a : A) → Sound (ret a)
Sound-ret a = λ e. cc

print_key-Sound : (key : Bytes) → Sound (print_key key)
unfolding print_key strcpy
print_key-Sound key = ground arith

module _ {F : Type 0} where
  head_calls-Sound : (size : ℤ) (unitstr : List ℕ) → Sound (head_calls {F = F} size unitstr)
  unfolding head_calls append_units
  head_calls-Sound size unitstr = ground arith

  put_fields-Sound :
      (prefix : Bytes) (id : ℤ) (fields : List (Bytes × Value F))
      → Sound (put_fields prefix id fields)
  unfolding put_fields
  put_fields-Sound prefix id [] = Sound-ret _
  put_fields-Sound prefix id ((field, value) ∷ fields) =
      Sound-bind (print_key (field_key prefix id field)) _ (print_key-Sound _) λ key.
        Sound-bind (put_fields prefix id fields) _ (put_fields-Sound prefix id fields)
          λ later. Sound-ret _

  put_entries-Sound : (es : List (Entry F)) → Sound (put_entries es)
  unfolding put_entries
  put_entries-Sound [] = Sound-ret _
  put_entries-Sound (e ∷ es) =
      Sound-bind (put_fields (codes "results.") e.id (entry_fields e)) _
        (put_fields-Sound _ e.id (entry_fields e))
        λ fields. Sound-bind (put_entries es) _ (put_entries-Sound es) λ later. Sound-ret _

  put_pairs-Sound : (ps : List KeyValuePair) → Sound (put_pairs {F = F} ps)
  unfolding put_pairs
  put_pairs-Sound [] = Sound-ret _
  put_pairs-Sound (p ∷ ps) =
      Sound-bind
        (elim p.key as (λ _. Outcome Bytes) [ none ↦ fault null_pointer | some name ↦ ret name ]) _
        (ground arith)
        λ name.
          Sound-bind (print_key (codes "results." ++ name)) _
            (print_key-Sound (codes "results." ++ name))
            λ key. Sound-bind (put_pairs ps) _ (put_pairs-Sound ps) λ later. Sound-ret _

  fetch_json-Sound :
      (payload : Payload F) (unitstr : List ℕ)
      → fits msgtype_fetch payload ≡ true
      → Sound (fetch_json payload unitstr)
  unfolding fetch_json entrylist_to_json_value
  fetch_json-Sound nothing unitstr h = Sound-ret _
  fetch_json-Sound (entry_list list) unitstr h =
      Sound-bind (head_calls (pos list.size) unitstr) _ (head_calls-Sound _ unitstr) λ head.
        Sound-bind (put_entries (take list.size list.entries)) _ (put_entries-Sound _)
          λ results. Sound-ret _
  fetch_json-Sound (one_entry e) unitstr h = ground arith
  fetch_json-Sound (key_values list) unitstr h = ground arith

  current_json-Sound :
      (payload : Payload F) (unitstr : List ℕ)
      → fits msgtype_current payload ≡ true
      → Sound (current_json payload unitstr)
  unfolding current_json entry_to_json_value
  current_json-Sound nothing unitstr h = Sound-ret _
  current_json-Sound (one_entry e) unitstr h =
      Sound-bind (head_calls (pos 1) unitstr) _ (head_calls-Sound _ unitstr) λ head.
        Sound-bind (put_fields [] e.id (entry_fields e)) _
          (put_fields-Sound [] e.id (entry_fields e)) λ fields. Sound-ret _
  current_json-Sound (entry_list list) unitstr h = ground arith
  current_json-Sound (key_values list) unitstr h = ground arith

  pairs_json-Sound :
      (mtype : ℕ) (payload : Payload F)
      → (mtype == msgtype_stats || mtype == msgtype_config) ≡ true
      → fits mtype payload ≡ true
      → Sound (pairs_json payload)
  unfolding pairs_json key_value_list_to_json_value
  pairs_json-Sound mtype nothing t h = λ e. cc
  pairs_json-Sound mtype (key_values list) t h =
      Sound-bind (put_pairs (take list.length list.pairs)) _ (put_pairs-Sound _)
        λ results. Sound-ret _
  pairs_json-Sound mtype (one_entry e) t h = ground arith
  pairs_json-Sound mtype (entry_list list) t h = ground arith

  message_json-Sound :
      (jval_freed : Bool) (msg : Message F)
      → fits msg.mtype msg.payload ≡ true
      → Sound (message_json jval_freed msg)
  unfolding message_json
  message_json-Sound jval_freed msg h =
      Sound-if (msg.mtype == msgtype_fetch) _ _
        (λ e.
          let same : msg.mtype ≡ msgtype_fetch = ground arith in
          fetch_json-Sound msg.payload msg.unitstr (subst (λ t. fits t msg.payload ≡ true) same h))
        λ _.
          Sound-if (msg.mtype == msgtype_current) _ _
            (λ e.
              let same : msg.mtype ≡ msgtype_current = ground arith in
              current_json-Sound msg.payload msg.unitstr
                (subst (λ t. fits t msg.payload ≡ true) same h))
            λ _.
              Sound-if (msg.mtype == msgtype_stats || msg.mtype == msgtype_config) _ _
                (λ e. pairs_json-Sound msg.mtype msg.payload e h)
                λ _. Sound-if jval_freed _ _ (λ _ e. cc) λ _ e. cc

module _ {F : Type 0} (services : Services F) (serialize : List (Call F) → Option Bytes) where
  pub Reach-IsTyped : {s : State F services.sql.Db} → Reach services serialize s → IsTyped s
  Reach-IsTyped (here db) = record { readable = tt; storable = tt }
  Reach-IsTyped (next r step) = Step-IsTyped services serialize step (Reach-IsTyped r)

  -- In every state that the threads reach, the completed message at the front of the workers' queue
  -- is not read as what it is not: its `data` is NULL or leads to what the round takes it for by
  -- its type, so that the round's value for it is never made from data of another type.
  pub Reach-Sound :
      {s : State F services.sql.Db} (jval_freed : Bool) (msg : Message F) (queue : List (Message F))
      → Reach services serialize s
      → s.worker_queue ≡ msg ∷ queue
      → msg.is_completed ≡ true
      → (fits msg.mtype msg.payload ≡ true) × (message_json jval_freed msg ≢ fault uninitialised)
  Reach-Sound jval_freed msg queue reached front completed =
      let typed = subst (All Readable) front (IsTyped.readable (Reach-IsTyped reached)) in
      (typed.0 completed, message_json-Sound jval_freed msg (typed.0 completed))
