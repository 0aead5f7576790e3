-- ===== src/Config/File/RoundTrip.antt =====
-- What is written is read back.
use rpiweatherd.Base.{
  ℕ, suc, ◌+◌, ◌≤◌, ◌<◌, ◌^◌, ◌≡◌, refl, sym, ap, ◌∙◌, ℤ, pos, negsuc, true, false, some, List, [],
  ◌∷◌, Bytes, codes, length, length-append, ◌/◌, ◌%◌, ◌||◌, All, str_eq, ret, Holds, Holds-ret,
  arith, Bool-cases, inl, inr, leb, ltb, ◌&&◌, ◌==◌,
}
use mathlib.Core.Path.{subst}
use rpiweatherd.CLib.Text.{Malloc, is_digit, read_digits}
use rpiweatherd.CLib.Decimal.{digits, decimal, decimal_ℤ, skip_spaces, signed_digits, strtol}
use rpiweatherd.CLib.Decimal.Laws.{IsInt, decimal-digits, read_digits-decimal}
use rpiweatherd.Config.{Config, Parsing, set_entry, inih_callback}
use rpiweatherd.Config.File.{Line, setting, write_config_file, Handler, IniParse, parse_config_file}
use rpiweatherd.Http.Parser.Parts.{Available, strdup-some}

decimal-nonempty : (n : ℕ) → 1 ≤ length (decimal n)
unfolding decimal digits
decimal-nonempty n = elim (Bool-cases (ltb n 10)) [
  | inl small ↦ rw small (omega arith)
  | inr large ↦ rw large (omega (arith, length-append (digits n (n / 10)) ((b'0' + n % 10) ∷ [])))
]

strtol-digits :
    (s : Bytes) (n : ℕ)
    → All (λ c. is_digit c ≡ true) s
    → 1 ≤ length s
    → read_digits 0 s ≡ n
    → n < 2 ^ 31
    → strtol s ≡ (pos n, false)
unfolding strtol skip_spaces signed_digits is_digit
strtol-digits [] n h e r lt = absurd (omega arith)
strtol-digits (c ∷ s) n h e r lt =
    let no_space : (c == b' ' || leb 9 c && leb c 13) ≡ false = ground (arith, h.0) in
    let no_minus : (c == b'-') ≡ false = ground (arith, h.0) in
    let no_plus : (c == b'+') ≡ false = ground (arith, h.0) in
    rw (no_space, no_minus, no_plus, r) (ground arith)

strtol-minus :
    (s : Bytes) (n : ℕ)
    → read_digits 0 s ≡ suc n
    → n < 2 ^ 31
    → strtol (b'-' ∷ s) ≡ (negsuc n, false)
unfolding strtol skip_spaces signed_digits
strtol-minus s n r lt = rw r (ground arith)

-- A printed `int` is read back, with no error.
pub strtol-decimal_ℤ : (z : ℤ) → IsInt z → strtol (decimal_ℤ z) ≡ (z, false)
unfolding decimal_ℤ
strtol-decimal_ℤ (pos n) h =
    strtol-digits (decimal n) n (decimal-digits n) (decimal-nonempty n) (read_digits-decimal n) h
strtol-decimal_ℤ (negsuc n) h = strtol-minus (decimal (suc n)) n (read_digits-decimal (suc n)) h

decimal_ℤ-nonempty : (z : ℤ) → 1 ≤ length (decimal_ℤ z)
unfolding decimal_ℤ
decimal_ℤ-nonempty (pos n) = decimal-nonempty n
decimal_ℤ-nonempty (negsuc n) = omega arith

-- The entries of a file.
abbrev pub settings : List Line → List (Bytes × Bytes)
settings [] = []
settings (setting name value ∷ lines) = (name, value) ∷ settings lines
settings (_ ∷ lines) = settings lines

abbrev pub deliver : Handler → List (Bytes × Bytes) → Parsing → Parsing
deliver handler [] st = st
deliver handler ((name, value) ∷ entries) st = deliver handler entries (handler name value st).1

abbrev pub Accepts : Handler → List (Bytes × Bytes) → Parsing → Type 0
Accepts handler [] st = Unit
Accepts handler ((name, value) ∷ entries) st =
    ((handler name value st).0 ≡ pos 1) × Accepts handler entries (handler name value st).1

-- The parser hands the entries of the file to the handler, in order, and returns 0 if each is
-- accepted.
abbrev pub Reads : IniParse → Bytes → List (Bytes × Bytes) → Type 0
Reads ini_parse path entries =
    (handler : Handler) (st : Parsing)
    → Accepts handler entries st
    → ini_parse path handler st ≡ (pos 0, deliver handler entries st)

-- A configuration that can be written: no string of it is NULL or empty, and its numbers are `int`.
pub record IsWritable (c : Config) : Type 0 where
  pub location : (x : ℕ) × (s : Bytes) × (c.measure_location ≡ some (x ∷ s))
  pub interval : (x : ℕ) × (s : Bytes) × (c.query_interval ≡ some (x ∷ s))
  pub device : (x : ℕ) × (s : Bytes) × (c.device_name ≡ some (x ∷ s))
  pub config : IsInt c.device_config
  pub port : IsInt c.comm_port
  pub threads : IsInt c.num_worker_threads

module _ (malloc : Malloc) (m : Available malloc) where
  number_cons :
      (z : ℤ)
      → IsInt z
      → (x : ℕ) × (s : Bytes) × (decimal_ℤ z ≡ x ∷ s) × (strtol (x ∷ s) ≡ (z, false))
  number_cons z h = cons_of (decimal_ℤ z) refl
    where
      cons_of :
          (t : Bytes)
          → decimal_ℤ z ≡ t
          → (x : ℕ) × (s : Bytes) × (decimal_ℤ z ≡ x ∷ s) × (strtol (x ∷ s) ≡ (z, false))
      cons_of [] e = absurd (omega (arith, decimal_ℤ-nonempty z, ap length e))
      cons_of (x ∷ s) e = (x, s, e, sym (ap strtol e) ∙ strtol-decimal_ℤ z h)

  abbrev entries_of : Bytes → Bytes → Bytes → Bytes → Bytes → Bytes → List (Bytes × Bytes)
  entries_of location interval device config port threads =
      (codes "measure_location", location)
      ∷ (codes "query_interval", interval)
      ∷ (codes "device_name", device)
      ∷ (codes "device_config", config)
      ∷ (codes "comm_port", port)
      ∷ (codes "num_worker_threads", threads)
      ∷ []

  entries_of-read :
      (old c : Config) {x₁ x₂ x₃ : ℕ} {s₁ s₂ s₃ : Bytes} (x₄ x₅ x₆ : ℕ) (s₄ s₅ s₆ : Bytes)
      → c.measure_location ≡ some (x₁ ∷ s₁)
      → c.query_interval ≡ some (x₂ ∷ s₂)
      → c.device_name ≡ some (x₃ ∷ s₃)
      → strtol (x₄ ∷ s₄) ≡ (c.device_config, false)
      → strtol (x₅ ∷ s₅) ≡ (c.comm_port, false)
      → strtol (x₆ ∷ s₆) ≡ (c.num_worker_threads, false)
      → let st : Parsing = record { config = old; temp_count = 0; erange = false } in
        let entries = entries_of (x₁ ∷ s₁) (x₂ ∷ s₂) (x₃ ∷ s₃) (x₄ ∷ s₄) (x₅ ∷ s₅) (x₆ ∷ s₆) in
        Accepts (inih_callback malloc) entries st
        × (deliver (inih_callback malloc) entries st ≡ record {
          config = record c { config_count = old.config_count };
          temp_count = 6;
          erange = false;
        })
  unfolding inih_callback set_entry str_eq
  entries_of-read old c {x₁} {x₂} {x₃} {s₁} {s₂} {s₃} x₄ x₅ x₆ s₄ s₅ s₆ e₁ e₂ e₃ e₄ e₅ e₆ = (
    rw (e₄, e₅, e₆) (refl, (refl, (refl, (refl, (refl, (refl, tt)))))),
    rw
        (
          deliver,
          e₄,
          e₅,
          e₆,
          strdup-some malloc (x₁ ∷ s₁) m,
          strdup-some malloc (x₂ ∷ s₂) m,
          strdup-some malloc (x₃ ∷ s₃) m,
          e₁,
          e₂,
          e₃,
        )
        refl,
  )

  settings-write_config_file :
      (c : Config) (l i d : Bytes) {lines : List Line}
      → c.measure_location ≡ some l
      → c.query_interval ≡ some i
      → c.device_name ≡ some d
      → write_config_file c ≡ ret lines
      → settings lines
        ≡ entries_of l i d
            (decimal_ℤ c.device_config)
            (decimal_ℤ c.comm_port)
            (decimal_ℤ c.num_worker_threads)
  unfolding write_config_file
  settings-write_config_file c l i d e₁ e₂ e₃ h =
      let holds : Holds
          (λ lines.
            settings lines
            ≡ entries_of l i d (decimal_ℤ c.device_config) (decimal_ℤ c.comm_port)
                (decimal_ℤ c.num_worker_threads))
          (write_config_file c) =
        rw (write_config_file, e₁, e₂, e₃) refl in
      Holds-ret
        (λ lines.
          settings lines
          ≡ entries_of l i d (decimal_ℤ c.device_config) (decimal_ℤ c.comm_port)
              (decimal_ℤ c.num_worker_threads))
        (write_config_file c) holds h

  -- A configuration that can be written is read back from the file, over any other configuration,
  -- without an error, if memory is available, errno is not ERANGE before, and the parser hands on
  -- the entries of the file; the count of its entries is six.
  pub parse_config_file-write_config_file :
      (ini_parse : IniParse) (path : Bytes) (c old : Config) {lines : List Line}
      → IsWritable c
      → write_config_file c ≡ ret lines
      → Reads ini_parse path (settings lines)
      → parse_config_file malloc ini_parse path old false
        ≡ (pos 0, record c { config_count = 6 }, false)
  unfolding parse_config_file
  parse_config_file-write_config_file ini_parse path c old w h reads =
      let (x₁, s₁, e₁) = w.location in
      let (x₂, s₂, e₂) = w.interval in
      let (x₃, s₃, e₃) = w.device in
      let (x₄, s₄, d₄, e₄) = number_cons c.device_config w.config in
      let (x₅, s₅, d₅, e₅) = number_cons c.comm_port w.port in
      let (x₆, s₆, d₆, e₆) = number_cons c.num_worker_threads w.threads in
      let entries = settings-write_config_file c (x₁ ∷ s₁) (x₂ ∷ s₂) (x₃ ∷ s₃) e₁ e₂ e₃ h in
      let (accepted, result) = entries_of-read old c x₄ x₅ x₆ s₄ s₅ s₆ e₁ e₂ e₃ e₄ e₅ e₆ in
      let read = subst (Reads ini_parse path) (rw (d₄, d₅, d₆) at entries) reads in
      let parsed = read (inih_callback malloc) _ accepted ∙ ap (λ st. (pos 0, st)) result in
      rw parsed refl
