-- ===== src/Listener/Current/Measured.antt =====
-- What the current command answers.
use rpiweatherd.Base.{
  ℕ, zero, suc, ◌+◌, ◌<◌, ◌≡◌, ◌≢◌, ◌⊎◌, ap, codes, set, str_eq, str_eq_iff, refl, ℤ, pos, neg,
  true, Option, none, some, List, [], ◌∷◌, eq_ℤ_iff, sym, Bytes, ret, >>=-eq-ret, get_elem?, ◌==◌,
  arith, Bool-cases, Option-cases, inl, inr,
}
use mathlib.Core.Path.{subst}
use rpiweatherd.CLib.Text.{strdup_set, Malloc, to_lower}
use rpiweatherd.Config.{Config}
use rpiweatherd.Http.Params.{HttpCmdParam, HttpCmd}
use rpiweatherd.Listener.Codes.{success, msgtype_current}
use rpiweatherd.Data.Entries.{Entry, sizeof_entry}
use rpiweatherd.Listener.Message.{Message, one_entry}
use rpiweatherd.Listener.Current.{
  Checked, refuse, accept, check_unit, check_value, check_params, query_current, in_unit,
  fill_entry, answer_current, current_command_callback,
}

-- No parameter is refused with the code for success.
check_unit_refuses :
    (name : Option Bytes) (letter : ℕ) (unitstr : List ℕ) {checked : Checked}
    → check_unit name letter unitstr ≡ ret checked
    → checked ≢ refuse success
unfolding check_unit
check_unit_refuses none letter unitstr h = cc
check_unit_refuses (some name) letter unitstr h = ground arith

check_value_refuses :
    (name value : Option Bytes) (unitstr : List ℕ) {checked : Checked}
    → check_value name value unitstr ≡ ret checked
    → checked ≢ refuse success
unfolding check_value
check_value_refuses name none unitstr h = cc
check_value_refuses name (some []) unitstr h = ground arith
check_value_refuses name (some (c ∷ [])) unitstr h = check_unit_refuses name (to_lower c) unitstr h
check_value_refuses name (some (c ∷ d ∷ s)) unitstr h = ground arith

pub check_params_refuses :
    (cmd : HttpCmd) (unitstr : List ℕ) {checked : Checked}
    → check_params cmd unitstr ≡ ret checked
    → checked ≢ refuse success
unfolding check_params
check_params_refuses cmd unitstr {checked} h = elim (Bool-cases (cmd.length == 1)) [
  | inl one ↦
      let h₁ = rw one at h in
      elim (Option-cases (get_elem? cmd.params 0)) [
        | inl missing ↦ absurd (let h₂ = rw missing at h₁ in cc)
        | inr (p, found) ↦ check_value_refuses p.name p.value unitstr (rw found at h₁)
      ]
  | inr other ↦ let h₁ = rw other at h in ground arith
]

-- The letter sets the unit.
abbrev pub Sets : ℕ → List ℕ → List ℕ → Type 0
Sets letter unitstr unitstr' =
    ((letter ≡ b'c') × (unitstr' ≡ set unitstr 0 b'c'))
    ⊎ ((letter ≡ b'f') × (unitstr' ≡ set unitstr 0 b'f'))

-- The unit that a command asks for: with no parameter that of the message, and with one parameter,
-- named tempunit, its letter, whose case is ignored.
abbrev pub Asks : HttpCmd → List ℕ → List ℕ → Type 0
Asks cmd unitstr unitstr' =
    ((cmd.length ≡ 0) × (unitstr' ≡ unitstr))
    ⊎ ((cmd.length ≡ 1)
        × (p : HttpCmdParam) × (letter : ℕ) × (get_elem? cmd.params 0 ≡ some p)
        × (p.name ≡ some (codes "tempunit"))
        × (p.value ≡ some (letter ∷ []))
        × Sets (to_lower letter) unitstr unitstr')

check_unit-Sets :
    (name : Option Bytes) (letter : ℕ) (unitstr unitstr' : List ℕ)
    → check_unit name letter unitstr ≡ ret (accept unitstr')
    → (name ≡ some (codes "tempunit")) × Sets letter unitstr unitstr'
unfolding check_unit
check_unit-Sets none letter unitstr unitstr' h = cc
check_unit-Sets (some name) letter unitstr unitstr' h =
    elim (Bool-cases (str_eq name (codes "tempunit"))) [
      | inr other ↦ absurd (let h' = rw other at h in cc)
      | inl e ↦
          let h' = rw e at h in (ap some ((str_eq_iff name (codes "tempunit")).0 e), ground arith)
    ]

check_value-Sets :
    (name value : Option Bytes) (unitstr unitstr' : List ℕ)
    → check_value name value unitstr ≡ ret (accept unitstr')
    → (letter : ℕ) × (name ≡ some (codes "tempunit"))
      × (value ≡ some (letter ∷ []))
      × Sets (to_lower letter) unitstr unitstr'
unfolding check_value
check_value-Sets name none unitstr unitstr' h = cc
check_value-Sets name (some []) unitstr unitstr' h = absurd (cc)
check_value-Sets name (some (c ∷ [])) unitstr unitstr' h =
    let (named, sets) = check_unit-Sets name (to_lower c) unitstr unitstr' h in
    (c, named, refl, sets)
check_value-Sets name (some (c ∷ d ∷ s)) unitstr unitstr' h = absurd (cc)

check_params-Asks :
    (cmd : HttpCmd) (unitstr unitstr' : List ℕ)
    → check_params cmd unitstr ≡ ret (accept unitstr')
    → Asks cmd unitstr unitstr'
unfolding check_params
check_params-Asks cmd unitstr unitstr' h = elim (Bool-cases (cmd.length == 1)) [
  | inl one ↦
      let h₁ = rw one at h in
      elim (Option-cases (get_elem? cmd.params 0)) [
        | inl missing ↦ absurd (let h₂ = rw missing at h₁ in cc)
        | inr (p, found) ↦
            let (letter, named, value, sets) =
              check_value-Sets p.name p.value unitstr unitstr' (rw found at h₁) in
            inr (ground arith, p, letter, found, named, value, sets)
      ]
  | inr other ↦ let h₁ = rw other at h in inl (ground arith)
]

module _ {F : Type 0} (to_farenheit : F → F) (queries : ℕ → ℤ × F × F) where
  query_current-some :
      (left n : ℕ) {m : ℕ}
      → query_current to_farenheit queries left n ≡ some m
      → ((queries m).0 ≡ pos 0) × (m < n + left)
  unfolding query_current
  query_current-some zero n h = cc
  query_current-some (suc left) n {m} h =
      ground (arith, query_current-some left (suc n) {m = m}, (eq_ℤ_iff (queries n).0 (pos 0)).0)

  -- The temperature is kept for a unit `c`, and converted for any other.
  abbrev pub IsInUnit : List ℕ → F → F → Type 0
  IsInUnit unitstr t x =
      ((get_elem? unitstr 0 ≡ some b'c') × (x ≡ t))
      ⊎ ((get_elem? unitstr 0 ≢ some b'c') × (x ≡ to_farenheit t))

  in_unit-IsInUnit :
      (unitstr : List ℕ) (t : F) → IsInUnit unitstr t (in_unit to_farenheit queries unitstr t)
  unfolding in_unit
  in_unit-IsInUnit [] t = inr ((λ e. cc), refl)
  in_unit-IsInUnit (unit ∷ units) t = elim (Bool-cases (unit == b'c')) [
    | inl e ↦ inl (ground arith, rw e refl)
    | inr e ↦ inr ((λ same. ground arith), rw e refl)
  ]

  -- The entry holds the measurements of the call `n`.
  pub record Measures (msg' : Message F) (n : ℕ) : Type 0 where
    pub entry : Entry F
    pub payload : msg'.payload ≡ one_entry entry
    pub temperature : IsInUnit msg'.unitstr (queries n).1 entry.temperature
    pub humidity : entry.humidity ≡ (queries n).2
    pub mtype : msg'.mtype ≡ msgtype_current
    pub completed : msg'.is_completed ≡ true

  fill_entry-Measures :
      (malloc : Malloc) (c : Config) (msg : Message F) (n : ℕ) {msg' : Message F}
      → fill_entry to_farenheit queries malloc c msg n ≡ ret (success, msg')
      → Measures msg' n
  unfolding fill_entry
  fill_entry-Measures malloc c msg n {msg'} h = elim (Bool-cases (malloc sizeof_entry)) [
    | inl room ↦
        let h₁ = rw room at h in
        let (location, _, h₂) = >>=-eq-ret (strdup_set malloc c.measure_location) _ h₁ in
        let (device_name, _, h₃) = >>=-eq-ret (strdup_set malloc c.device_name) _ h₂ in
        record {
          entry = record {
            id = neg 1;
            record_date = none;
            temperature = in_unit to_farenheit queries msg.unitstr (queries n).1;
            humidity = (queries n).2;
            location = location;
            device_name = device_name;
          };
          payload = cc h₃;
          temperature =
              subst
                (λ u.
                  IsInUnit u (queries n).1 (in_unit to_farenheit queries msg.unitstr (queries n).1))
                (cc h₃) (in_unit-IsInUnit msg.unitstr (queries n).1);
          humidity = refl;
          mtype = cc h₃;
          completed = cc h₃;
        }
    | inr full ↦ absurd (let h₁ = rw full at h in ground arith)
  ]

  fill_entry-unitstr :
      (malloc : Malloc) (c : Config) (msg : Message F) (n : ℕ) {msg' : Message F}
      → fill_entry to_farenheit queries malloc c msg n ≡ ret (success, msg')
      → msg'.unitstr ≡ msg.unitstr
  unfolding fill_entry
  fill_entry-unitstr malloc c msg n {msg'} h = elim (Bool-cases (malloc sizeof_entry)) [
    | inl room ↦
        let h₁ = rw room at h in
        let (location, _, h₂) = >>=-eq-ret (strdup_set malloc c.measure_location) _ h₁ in
        let (device_name, _, h₃) = >>=-eq-ret (strdup_set malloc c.device_name) _ h₂ in cc h₃
    | inr full ↦ absurd (let h₁ = rw full at h in ground arith)
  ]

  answer_current-Measures :
      (malloc : Malloc) (c : Config) (cmd : HttpCmd) (msg : Message F) (checked : Checked)
      {msg' : Message F}
      → check_params cmd msg.unitstr ≡ ret checked
      → answer_current to_farenheit queries malloc c msg checked ≡ ret (success, msg')
      → checked ≢ refuse success
      → (n : ℕ) × ((queries n).0 ≡ pos 0)
        × (n < 64)
        × Measures msg' n
        × Asks cmd msg.unitstr msg'.unitstr
  unfolding answer_current
  answer_current-Measures malloc c cmd msg (refuse code) e h ne = absurd (ne (cc))
  answer_current-Measures malloc c cmd msg (accept unitstr) e h ne =
      elim (Option-cases (query_current to_farenheit queries 64 0)) [
        | inl failed ↦ absurd (let h₁ = rw (answer_current, failed) at h in ground arith)
        | inr (n, called) ↦
            let (ok, bound) = query_current-some 64 0 called in
            let filled = rw (answer_current, called) at h in
            (
              n,
              ok,
              omega arith,
              fill_entry-Measures malloc c (record msg { unitstr = unitstr }) n filled,
              subst (Asks cmd msg.unitstr)
                  (sym (fill_entry-unitstr malloc c (record msg { unitstr = unitstr }) n filled))
                  (check_params-Asks cmd msg.unitstr unitstr e),
            )
      ]

  -- A current command that reports success made a call of the device that succeeded, among the
  -- first 64, and its completed message carries an entry with the measurements of that call: the
  -- temperature as it was measured for the unit `c`, and in Farenheit otherwise. The unit is that of
  -- the message where there is no parameter; else the one parameter is tempunit, and the unit its
  -- letter, c or f in either case.
  pub current_command_callback-Measures :
      (malloc : Malloc) (c : Config) (cmd : HttpCmd) (msg : Message F) {msg' : Message F}
      → current_command_callback to_farenheit queries malloc c cmd msg ≡ ret (success, msg')
      → (n : ℕ) × ((queries n).0 ≡ pos 0)
        × (n < 64)
        × Measures msg' n
        × Asks cmd msg.unitstr msg'.unitstr
  unfolding current_command_callback
  current_command_callback-Measures malloc c cmd msg h =
      let (checked, e, h₁) = >>=-eq-ret (check_params cmd msg.unitstr) _ h in
      answer_current-Measures malloc c cmd msg checked e h₁ (check_params_refuses cmd msg.unitstr e)
