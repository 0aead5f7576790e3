-- ===== src/Trigger/Load/Bounds.antt =====
-- What load_triggers leaves in the static table.
use rpiweatherd.Base.{
  ℕ, zero, suc, ◌≤◌, ◌<◌, ◌≡◌, ◌⊎◌, inl, inr, Bool, Option, none, some, List, [], ◌∷◌, ltb, length,
  if◌then◌else◌, Bytes, get_elem?, length-set, Outcome, ret, >>=-eq-ret, arith, Option-cases,
  Bool-cases,
}
use rpiweatherd.CLib.Text.{Malloc}
use rpiweatherd.Trigger.Floats.{Floats}
use rpiweatherd.Trigger.Codes.{parse_ok, error_file_not_found}
use rpiweatherd.Trigger.Parse.{Trigger, parse_trigger}
use rpiweatherd.Trigger.Load.{
  Triggers, free_trigger, free_first, unload_triggers, log_parse_error, LineResult, read_past_table,
  load_entry, after_line, load_lines, load_triggers,
}
use rpiweatherd.Trigger.Load.Flags.{parse_trigger_flag}

-- The table has its 16 entries, and no more are in use.
pub record IsValid {F : Type 0} (st : Triggers F) : Type 0 where
  pub entries : length st.table ≡ 16
  pub in_use : st.count ≤ 16

get_elem?-lt {ℓ} :
    {A : Type ℓ} (xs : List A) (i : ℕ) {x : A} → get_elem? xs i ≡ some x → i < length xs
get_elem?-lt [] i h = cc
get_elem?-lt (y ∷ xs) zero h = omega arith
get_elem?-lt (y ∷ xs) (suc i) h = omega (arith, get_elem?-lt xs i h)

module _ {F : Type 0} where
  length-free_first :
      (n : ℕ) (table : List (Trigger F)) {table' : List (Trigger F)}
      → free_first n table ≡ ret table'
      → length table' ≡ length table
  unfolding free_first
  length-free_first zero table h = ground arith
  length-free_first (suc n) [] h = cc
  length-free_first (suc n) (trig ∷ table) h =
      let (trig', _, h') = >>=-eq-ret (free_trigger trig) _ h in
      let (rest, e, h'') = >>=-eq-ret (free_first n table) _ h' in
      ground (arith, length-free_first n table e)

  pub unload_triggers-IsValid :
      (st : Triggers F) {st' : Triggers F}
      → IsValid st
      → unload_triggers st ≡ ret st'
      → IsValid st' × (st'.count ≡ 0)
  unfolding unload_triggers
  unload_triggers-IsValid st v h =
      let (table, e, h') = >>=-eq-ret (free_first st.count st.table) _ h in
      ground (arith, length-free_first st.count st.table e)

module _ {F : Type 0} (fl : Floats F) (malloc : Malloc) where
  pub load_entry-IsValid :
      (erange : Bool) (st : Triggers F) (line : Bytes) {r : LineResult F}
      → IsValid st
      → load_entry fl malloc erange st line (get_elem? st.table st.count) ≡ ret r
      → IsValid r.state × (100 ≤ r.flag)
  unfolding load_entry read_past_table
  load_entry-IsValid erange st line v h = elim (Option-cases (get_elem? st.table st.count)) [
    | inl e ↦ let h' = rw e at h in ground arith
    | inr (trig, e) ↦
        let (a, ea, h') =
          >>=-eq-ret (parse_trigger fl malloc erange trig (some line)) _ (rw e at h) in
        ground (
          arith,
          get_elem?-lt st.table st.count e,
          length-set st.table st.count a.trig,
          parse_trigger_flag fl malloc erange trig line ea,
        )
  ]

  pub after_line-ret :
      (read_on : Bool → Triggers F → Outcome (ℕ × Triggers F)) (r : LineResult F)
      {out : ℕ × Triggers F}
      → 100 ≤ r.flag
      → after_line fl malloc read_on r ≡ ret out
      → read_on r.erange r.state ≡ ret out
  unfolding after_line log_parse_error
  after_line-ret read_on r big h = ground arith

  load_lines-IsValid :
      (lines : List Bytes) (erange : Bool) (st : Triggers F) {flag : ℕ} {st' : Triggers F}
      → IsValid st
      → load_lines fl malloc lines erange st ≡ ret (flag, st')
      → IsValid st' × (flag ≡ parse_ok)
  unfolding load_lines
  load_lines-IsValid [] erange st v h = ground arith
  load_lines-IsValid (line ∷ lines) erange st v h =
      let (r, e, h') =
        >>=-eq-ret (load_entry fl malloc erange st line (get_elem? st.table st.count)) _ h in
      let (v', big) = load_entry-IsValid erange st line v e in
      load_lines-IsValid lines r.erange r.state v'
        (after_line-ret (load_lines fl malloc lines) r big h')

  -- Where load_triggers returns, from a table of 16 entries with at most 16 in use, the table
  -- still has its 16 entries with at most 16 in use, and the flag is success or that there is no
  -- file.
  pub load_triggers-IsValid :
      (file : Option (List Bytes)) (erange : Bool) (st : Triggers F) {flag : ℕ} {st' : Triggers F}
      → IsValid st
      → load_triggers fl malloc file erange st ≡ ret (flag, st')
      → IsValid st' × ((flag ≡ parse_ok) ⊎ (flag ≡ error_file_not_found))
  unfolding load_triggers
  load_triggers-IsValid file erange st {flag} {st'} v h =
      let (st₁, e, h') = >>=-eq-ret (if ltb 0 st.count then unload_triggers st else ret st) _ h in
      let v₁ : IsValid st₁ = elim (Bool-cases (ltb 0 st.count)) [
        | inl used ↦ (unload_triggers-IsValid st v (rw used at e)).0
        | inr none_used ↦ let same = rw none_used at e in ground arith
      ] in
      loaded file st₁ v₁ h'
    where
      loaded :
          (file : Option (List Bytes)) (st₁ : Triggers F)
          → IsValid st₁
          → (elim file as (λ _. Outcome (ℕ × Triggers F)) [
            | none ↦ ret (error_file_not_found, st₁)
            | some lines ↦ load_lines fl malloc lines erange st₁
          ])
            ≡ ret (flag, st')
          → IsValid st' × ((flag ≡ parse_ok) ⊎ (flag ≡ error_file_not_found))
      loaded none st₁ v₁ h = ground arith
      loaded (some lines) st₁ v₁ h =
          let (v', ok) = load_lines-IsValid lines erange st₁ v₁ h in (v', inl ok)
