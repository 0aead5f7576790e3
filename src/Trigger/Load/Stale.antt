-- ===== src/Trigger/Load/Stale.antt =====
-- The pointers that unload_triggers leaves in the table, and a trigger without arguments that is
-- read over them.
use rpiweatherd.Base.{
  ℕ, zero, suc, ◌≤◌, ◌<◌, ◌≡◌, ◌≢◌, ◌⊎◌, inl, inr, refl, ◌==◌, Bool, Option, none, some, List, [],
  ◌∷◌, ltb, length, if◌then◌else◌, Bytes, get_elem?, get_elem?-set_self, get_elem?-set_other,
  Outcome, ret, fault, dangling, >>=-eq-ret, arith, Option-cases, Bool-cases,
}
use rpiweatherd.CLib.Text.{Malloc}
use rpiweatherd.CLib.Token.{strtok}
use rpiweatherd.Trigger.Floats.{Floats}
use rpiweatherd.Trigger.Codes.{parse_ok, parse_comment_line}
use rpiweatherd.Trigger.Parse.{Pointer, null, live, freed, Trigger, is_blank, parse_trigger}
use rpiweatherd.Trigger.Parse.Arguments.{IsPin, parse_trigger-Keeps}
use rpiweatherd.Trigger.Load.{
  Triggers, free, free_trigger, free_first, unload_triggers, log_parse_error, LineResult,
  read_past_table, load_entry, after_line, load_lines, load_triggers,
}
use rpiweatherd.Trigger.Load.Bounds.{
  IsValid, load_entry-IsValid, after_line-ret, load_triggers-IsValid, unload_triggers-IsValid,
}

free-cases : (p : Pointer) → (free p ≡ fault dangling) ⊎ ((q : Pointer) × (free p ≡ ret q))
unfolding free
free-cases null = inr (null, refl)
free-cases (live s) = inr (freed, refl)
free-cases freed = inl refl

module _ {F : Type 0} where
  -- A trigger is freed, or one of its pointers was freed before.
  free_trigger-cases :
      (trig : Trigger F)
      → (free_trigger trig ≡ fault dangling)
        ⊎ ((trig' : Trigger F) × (free_trigger trig ≡ ret trig'))
  unfolding free_trigger
  free_trigger-cases trig = elim (free-cases trig.args) [
    | inl d ↦ inl (ground arith)
    | inr (a, ea) ↦ elim (free-cases trig.target) [
      | inl d ↦ inl (ground arith)
      | inr (t, et) ↦ inr (record trig { args = a; target = t }, ground arith)
    ]
  ]

  free_trigger-args :
      (trig : Trigger F) {trig' : Trigger F}
      → trig.args ≢ null
      → free_trigger trig ≡ ret trig'
      → trig'.args ≡ freed
  unfolding free_trigger free
  free_trigger-args trig ne h = ground arith

  free_first-args :
      (n : ℕ) (table : List (Trigger F)) (i : ℕ) {trig : Trigger F} {table' : List (Trigger F)}
      → i < n
      → get_elem? table i ≡ some trig
      → trig.args ≢ null
      → free_first n table ≡ ret table'
      → (trig' : Trigger F) × (get_elem? table' i ≡ some trig') × (trig'.args ≡ freed)
  unfolding free_first
  free_first-args zero table i lt g ne h = ground arith
  free_first-args (suc n) [] i lt g ne h = cc
  free_first-args (suc n) (trig ∷ table) zero lt g ne h =
      let (trig', e, h') = >>=-eq-ret (free_trigger trig) _ h in
      let (rest, e', h'') = >>=-eq-ret (free_first n table) _ h' in
      (trig', ground arith, free_trigger-args trig (ground arith) e)
  free_first-args (suc n) (trig ∷ table) (suc i) lt g ne h =
      let (trig', e, h') = >>=-eq-ret (free_trigger trig) _ h in
      let (rest, e', h'') = >>=-eq-ret (free_first n table) _ h' in
      let (freed_one, g', a) = free_first-args n table i (omega arith) g ne e' in
      (freed_one, ground arith, a)

  -- Freeing a freed pointer is undefined, whatever is freed before it.
  free_first-dangling :
      (n : ℕ) (table : List (Trigger F)) (i : ℕ) {trig : Trigger F}
      → n ≤ length table
      → i < n
      → get_elem? table i ≡ some trig
      → trig.args ≡ freed
      → free_first n table ≡ fault dangling
  unfolding free_first free_trigger free
  free_first-dangling zero table i le lt g e = ground arith
  free_first-dangling (suc n) [] i le lt g e = ground arith
  free_first-dangling (suc n) (trig ∷ table) zero le lt g e = ground arith
  free_first-dangling (suc n) (trig ∷ table) (suc i) le lt g e = elim (free_trigger-cases trig) [
    | inl d ↦ ground arith
    | inr (trig', d) ↦ ground (arith, free_first-dangling n table i (omega arith) (omega arith) g e)
  ]

-- Entry `i` has freed arguments, if it is not in use or its action is on a pin.
record IsStale {F : Type 0} (i : ℕ) (st : Triggers F) : Type 0 where
  trig : Trigger F
  at : get_elem? st.table i ≡ some trig
  args : (st.count ≤ i) ⊎ IsPin trig.action → trig.args ≡ freed

module _ {F : Type 0} (fl : Floats F) (malloc : Malloc) where
  read_past_table-state :
      (erange : Bool) (st : Triggers F) (part : Option Bytes) {r : LineResult F}
      → read_past_table fl malloc erange st part ≡ ret r
      → r.state ≡ st
  unfolding read_past_table
  read_past_table-state erange st none h = cc
  read_past_table-state erange st (some part) h = ground arith

  load_entry-IsStale :
      (erange : Bool) (st : Triggers F) (line : Bytes) (i : ℕ) {r : LineResult F}
      → IsStale i st
      → load_entry fl malloc erange st line (get_elem? st.table st.count) ≡ ret r
      → (r.flag ≡ parse_ok) ⊎ (r.flag ≡ parse_comment_line)
      → IsStale i r.state
  unfolding load_entry
  load_entry-IsStale erange st line i s h go = elim (Option-cases (get_elem? st.table st.count)) [
    | inl e ↦
        let same = read_past_table-state erange st (strtok is_blank line).0 (rw e at h) in rw same s
    | inr (trig, e) ↦
        let (a, ea, h') =
          >>=-eq-ret (parse_trigger fl malloc erange trig (some line)) _ (rw e at h) in
        let k = parse_trigger-Keeps fl malloc erange trig line ea in
        elim (Bool-cases (i == st.count)) [
          | inl same ↦ record {
            trig = a.trig;
            at = ground (arith, get_elem?-set_self st.table st.count {x = a.trig} e);
            args = λ c. ground arith;
          }
          | inr other ↦ record {
            trig = s.trig;
            at = ground (arith, get_elem?-set_other st.table st.count i a.trig (ground arith));
            args = λ c. ground arith;
          }
        ]
  ]

  after_line-flag :
      (read_on : Bool → Triggers F → Outcome (ℕ × Triggers F)) (r : LineResult F)
      {out : ℕ × Triggers F}
      → 100 ≤ r.flag
      → after_line fl malloc read_on r ≡ ret out
      → (r.flag ≡ parse_ok) ⊎ (r.flag ≡ parse_comment_line)
  unfolding after_line log_parse_error
  after_line-flag read_on r big h = ground arith

  load_lines-IsStale :
      (lines : List Bytes) (erange : Bool) (st : Triggers F) (i : ℕ) {flag : ℕ} {st' : Triggers F}
      → IsValid st
      → IsStale i st
      → load_lines fl malloc lines erange st ≡ ret (flag, st')
      → IsStale i st'
  unfolding load_lines
  load_lines-IsStale [] erange st i v s h = ground arith
  load_lines-IsStale (line ∷ lines) erange st i v s h =
      let (r, e, h') =
        >>=-eq-ret (load_entry fl malloc erange st line (get_elem? st.table st.count)) _ h in
      let (v', big) = load_entry-IsValid fl malloc erange st line v e in
      let go = after_line-flag (load_lines fl malloc lines) r big h' in
      load_lines-IsStale lines r.erange r.state i v' (load_entry-IsStale erange st line i s e go)
        (after_line-ret fl malloc (load_lines fl malloc lines) r big h')

  unload_triggers-IsStale :
      (st : Triggers F) (i : ℕ) {trig : Trigger F} {st' : Triggers F}
      → i < st.count
      → get_elem? st.table i ≡ some trig
      → trig.args ≢ null
      → unload_triggers st ≡ ret st'
      → IsStale i st'
  unfolding unload_triggers
  unload_triggers-IsStale st i used g ne h =
      let (table, e, h') = >>=-eq-ret (free_first st.count st.table) _ h in
      let (trig', at, args) = free_first-args st.count st.table i used g ne e in
      record { trig = trig'; at = ground arith; args = λ c. args }

  load_triggers-IsStale :
      (file : Option (List Bytes)) (erange : Bool) (st : Triggers F) (i : ℕ) {flag : ℕ}
      {trig : Trigger F} {st' : Triggers F}
      → IsValid st
      → i < st.count
      → get_elem? st.table i ≡ some trig
      → trig.args ≢ null
      → load_triggers fl malloc file erange st ≡ ret (flag, st')
      → IsStale i st'
  unfolding load_triggers
  load_triggers-IsStale none erange st i {st' = st'} v used g ne h =
      let (st₁, e, h') = >>=-eq-ret (if ltb 0 st.count then unload_triggers st else ret st) _ h in
      let same : st' ≡ st₁ = ground arith in
      rw same (unload_triggers-IsStale st i used g ne (ground arith))
  load_triggers-IsStale (some lines) erange st i v used g ne h =
      let (st₁, e, h') = >>=-eq-ret (if ltb 0 st.count then unload_triggers st else ret st) _ h in
      let e' : unload_triggers st ≡ ret st₁ = ground arith in
      load_lines-IsStale lines erange st₁ i (unload_triggers-IsValid st v e').0
        (unload_triggers-IsStale st i used g ne e') h'

  -- A trigger on a pin, which has no arguments, that a reload reads into an entry in use whose
  -- trigger had arguments keeps the pointer to them, though they were freed: the next load,
  -- whatever its file, frees them again, which is undefined. Here the table is one that
  -- load_triggers leaves, and the reload returned.
  pub load_triggers_dangling :
      (file file' : Option (List Bytes)) (erange erange' : Bool) (st : Triggers F) (i : ℕ)
      {flag : ℕ} {st' : Triggers F} {trig trig' : Trigger F}
      → IsValid st
      → i < st.count
      → get_elem? st.table i ≡ some trig
      → trig.args ≢ null
      → load_triggers fl malloc file erange st ≡ ret (flag, st')
      → i < st'.count
      → get_elem? st'.table i ≡ some trig'
      → IsPin trig'.action
      → load_triggers fl malloc file' erange' st' ≡ fault dangling
  unfolding load_triggers unload_triggers
  load_triggers_dangling file file' erange erange' st i {st' = st'} v used g ne h used' g' pin =
      let s = load_triggers-IsStale file erange st i v used g ne h in
      let v' = (load_triggers-IsValid fl malloc file erange st v h).0 in
      let d =
        free_first-dangling st'.count st'.table i (ground arith) used' s.at
          (s.args (inr (ground arith))) in
      ground arith
