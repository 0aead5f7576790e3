-- ===== src/Config/Reload/Owns.antt =====
-- The strings of the configuration across a reload.
use rpiweatherd.Base.{
  ℕ, ◌+◌, ◌≤◌, ◌≡◌, refl, Bool, true, false, ◌||◌, none, some, List, [], ◌∷◌, ◌++◌, Bytes, codes,
  str_eq, str_eq_iff, ret, ◌>>=◌, arith, Bool-cases, inl, inr,
}
use rpiweatherd.CLib.Heap.{Ptr, Live, count}
use rpiweatherd.CLib.Heap.Frees.{
  blocks, blocks-append, Returns-ret, Frees, Frees-ret, Frees-free, Frees-seq,
}
use rpiweatherd.Config.Reload.{
  ConfigPtrs, Store, free_string, free_config, Strdup, with_block, IniEntry, put_string, put_entry,
  put_settings, reload_config,
}

-- The pointer, if it counts.
abbrev pub ptr_if : Bool → Ptr → List Ptr
ptr_if true p = p ∷ []
ptr_if false p = []

-- Those of the three strings that count.
abbrev pub strings : Bool → Bool → Bool → ConfigPtrs → List Ptr
strings l d q c =
    ptr_if l c.measure_location ++ (ptr_if d c.device_name ++ ptr_if q c.query_interval)

abbrev pub config_ptrs : ConfigPtrs → List Ptr
config_ptrs c = c.measure_location ∷ c.device_name ∷ c.query_interval ∷ []

-- Each string of the configuration is a live block, and no two are the same.
pub record Owns (st : Store) : Type 0 where
  pub owned : (x : ℕ) → count x (blocks (config_ptrs st.config)) ≤ count x st.live

-- Whether an entry sets the string of a name.
unfoldable pub sets : Bytes → List IniEntry → Bool
unfolding str_eq
sets name [] = false
sets name ((key, []) ∷ entries) = sets name entries
sets name ((key, c ∷ value) ∷ entries) = str_eq key name || sets name entries

free_string-Frees : (keep : List ℕ) (p : Ptr) → Frees keep (p ∷ []) (free_string p)
unfolding free_string
free_string-Frees keep none = record { run = (Frees-ret keep).run }
free_string-Frees keep (some x) = Frees-free keep (some x)

pub free_config-Frees :
    (keep : List ℕ) (c : ConfigPtrs) → Frees keep (config_ptrs c) (free_config c)
unfolding free_config
free_config-Frees keep c =
    Frees-seq keep (c.measure_location ∷ []) (c.device_name ∷ c.query_interval ∷ [])
      (free_string c.measure_location)
      (λ live. free_string c.device_name live >>= free_string c.query_interval)
      (free_string-Frees _ c.measure_location)
      (Frees-seq keep (c.device_name ∷ []) (c.query_interval ∷ []) (free_string c.device_name)
        (free_string c.query_interval) (free_string-Frees _ c.device_name)
        (free_string-Frees keep c.query_interval))

abbrev OwnsSome : Bool → Bool → Bool → Store → Type 0
OwnsSome l d q st = (x : ℕ) → count x (blocks (strings l d q st.config)) ≤ count x st.live

-- Sums over the strings.
abbrev pub one : ℕ → Ptr → ℕ
one x p = count x (blocks (p ∷ []))

abbrev pub one_if : ℕ → Bool → Ptr → ℕ
one_if x b p = count x (blocks (ptr_if b p))

pub strings_sum :
    (x : ℕ) (l d q : Bool) (c : ConfigPtrs)
    → count x (blocks (strings l d q c))
      ≡ one_if x l c.measure_location + (one_if x d c.device_name + one_if x q c.query_interval)
strings_sum x l d q c = omega (
  arith,
  blocks-append x (ptr_if l c.measure_location)
      (ptr_if d c.device_name ++ ptr_if q c.query_interval),
  blocks-append x (ptr_if d c.device_name) (ptr_if q c.query_interval),
)

with_block_sum :
    (x : ℕ) (p : Ptr) (live : Live) → count x (with_block p live) ≡ one x p + count x live
with_block_sum x none live = omega arith
with_block_sum x (some y) live = ground arith

module _ (strdup : Strdup) where
  -- An entry with a value replaces its string by a new block.
  put_string-OwnsSome :
      (name : Bytes) (l d q : Bool) (st : Store)
      → OwnsSome l d q st
      → OwnsSome
          (str_eq name (codes "measure_location") || l)
          (str_eq name (codes "device_name") || d)
          (str_eq name (codes "query_interval") || q)
          (put_string strdup name st)
  unfolding put_string str_eq
  put_string-OwnsSome name l d q st h =
      let p = strdup st.live in
      let c = st.config in
      elim (Bool-cases (str_eq name (codes "measure_location"))) [
        | inl e ↦ rw ((str_eq_iff name (codes "measure_location")).0 e) λ x. omega (
          arith,
          h x,
          strings_sum x l d q c,
          strings_sum x true d q (record c { measure_location = p }),
          with_block_sum x p st.live,
        )
        | inr no_location ↦ elim (Bool-cases (str_eq name (codes "query_interval"))) [
          | inl e ↦ rw ((str_eq_iff name (codes "query_interval")).0 e) λ x. omega (
            arith,
            h x,
            strings_sum x l d q c,
            strings_sum x l d true (record c { query_interval = p }),
            with_block_sum x p st.live,
          )
          | inr no_interval ↦ elim (Bool-cases (str_eq name (codes "device_name"))) [
            | inl e ↦ rw ((str_eq_iff name (codes "device_name")).0 e) λ x. omega (
              arith,
              h x,
              strings_sum x l d q c,
              strings_sum x l true q (record c { device_name = p }),
              with_block_sum x p st.live,
            )
            | inr no_device ↦ rw (no_location, no_interval, no_device) h
          ]
        ]
      ]

  swap_first : (a b c : Bool) → a || (b || c) ≡ (b || a) || c
  swap_first a b c = ground arith

  put_settings-OwnsSome :
      (entries : List IniEntry) (l d q : Bool) (st : Store)
      → OwnsSome l d q st
      → OwnsSome
          (sets (codes "measure_location") entries || l)
          (sets (codes "device_name") entries || d)
          (sets (codes "query_interval") entries || q)
          (put_settings strdup entries st)
  unfolding put_settings put_entry sets
  put_settings-OwnsSome [] l d q st h = h
  put_settings-OwnsSome ((name, []) ∷ entries) l d q st h = put_settings-OwnsSome entries l d q st h
  put_settings-OwnsSome ((name, c ∷ value) ∷ entries) l d q st h =
      let is = λ (key : Bytes). str_eq name key in
      rw⁻¹
        (
          swap_first (sets (codes "measure_location") entries) (is (codes "measure_location")) l,
          swap_first (sets (codes "device_name") entries) (is (codes "device_name")) d,
          swap_first (sets (codes "query_interval") entries) (is (codes "query_interval")) q,
        )
        (put_settings-OwnsSome entries (is (codes "measure_location") || l)
          (is (codes "device_name") || d) (is (codes "query_interval") || q)
          (put_string strdup name st) (put_string-OwnsSome name l d q st h))

  -- A reload from a file that sets the three strings of the configuration, each of them to
  -- something, does not fault where each of the old strings is a live block and no two are the same.
  -- It first frees the old strings, each once, and no other block, and puts the entries into what is
  -- left; behind it each of the new strings is a live block and no two are the same.
  pub reload_config-Owns :
      (entries : List IniEntry) (st : Store)
      → sets (codes "measure_location") entries ≡ true
      → sets (codes "device_name") entries ≡ true
      → sets (codes "query_interval") entries ≡ true
      → Owns st
      → (st' : Store) × (live : Live) × (reload_config strdup entries st ≡ ret st')
        × ((x : ℕ) → count x live + count x (blocks (config_ptrs st.config)) ≡ count x st.live)
        × (st' ≡ put_settings strdup entries (record st { live = live }))
        × Owns st'
  unfolding reload_config
  reload_config-Owns entries st l d q o =
      let freed =
        Returns-ret (config_ptrs st.config) st.live (free_config st.config st.live)
          ((free_config-Frees [] st.config).run st.live λ x. omega (arith, o.owned x)) in
      let (live, e, only) = freed in
      (
        put_settings strdup entries (record st { live = live }),
        live,
        rw e refl,
        only,
        refl,
        record {
          owned = λ x.
              rw (l, d, q) at
                (put_settings-OwnsSome entries false false false (record st { live = live })
                  (λ y. omega arith) x);
        },
      )
