-- ===== src/Config/Reload/Stale.antt =====
-- The strings that a reload leaves behind.
use rpiweatherd.Base.{
  ℕ, ◌+◌, ◌<◌, ◌≡◌, refl, Bool, true, false, ◌||◌, none, some, List, [], ◌∷◌, codes, str_eq,
  Outcome, ret, fault, Fault, ◌>>=◌, arith, Bool-cases, inl, inr, Holds, Holds-bind, Holds-ret,
  Holds-intro,
}
use rpiweatherd.CLib.Heap.{Ptr, Live, count, is_live, free}
use rpiweatherd.CLib.Heap.Frees.{blocks, Returns-ret, release-count}
use rpiweatherd.Config.Reload.{
  ConfigPtrs, Store, free_string, free_config, Strdup, IniEntry, put_string, put_entry,
  put_settings, reload_config,
}
use rpiweatherd.Config.Reload.Owns.{Owns, config_ptrs, sets, one, strings_sum, free_config-Frees}

-- What is freed was live.
free_string-Holds :
    (p : Ptr) (live : Live)
    → Holds (λ live'. (x : ℕ) → count x live' + one x p ≡ count x live) (free_string p live)
unfolding free_string free
free_string-Holds none live = λ x. omega arith
free_string-Holds (some y) live = elim (Bool-cases (is_live y live)) [
  | inl l ↦ rw l (λ x. release-count y x live l)
  | inr gone ↦ rw gone tt
]

free_config-Holds :
    (c : ConfigPtrs) (live : Live)
    → Holds
        (λ live'. (x : ℕ) → count x live' + count x (blocks (config_ptrs c)) ≡ count x live)
        (free_config c live)
unfolding free_config
free_config-Holds c live = Holds-bind _ (free_string c.measure_location live) _ λ live₁ e₁.
    Holds-bind _ (free_string c.device_name live₁) _ λ live₂ e₂.
      Holds-intro _ (free_string c.query_interval live₂) λ live₃ e₃ x.
        let s₁ = Holds-ret _ _ (free_string-Holds c.measure_location live) e₁ x in
        let s₂ = Holds-ret _ _ (free_string-Holds c.device_name live₁) e₂ x in
        let s₃ = Holds-ret _ _ (free_string-Holds c.query_interval live₂) e₃ x in
        omega (arith, s₁, s₂, s₃, strings_sum x true true true c)

-- A string of the configuration that is no longer live.
free_config_twice :
    (c : ConfigPtrs) (live : Live) (x : ℕ)
    → 0 < count x (blocks (config_ptrs c))
    → count x live ≡ 0
    → (e : Fault) × (free_config c live ≡ fault e)
free_config_twice c live x h gone = go (free_config c live) (free_config-Holds c live)
  where
    go :
        (r : Outcome Live)
        → Holds
            (λ live'. (y : ℕ) → count y live' + count y (blocks (config_ptrs c)) ≡ count y live)
            r
        → (e : Fault) × (r ≡ fault e)
    go (ret live') balance = absurd (omega (arith, balance x, h, gone))
    go (fault e) balance = (e, refl)

module _ (strdup : Strdup) where
  put_settings_unset :
      (entries : List IniEntry) (st : Store)
      → sets (codes "measure_location") entries ≡ false
      → sets (codes "device_name") entries ≡ false
      → sets (codes "query_interval") entries ≡ false
      → put_settings strdup entries st ≡ st
  unfolding put_settings put_entry put_string sets
  put_settings_unset [] st l d q = refl
  put_settings_unset ((name, []) ∷ entries) st l d q = put_settings_unset entries st l d q
  put_settings_unset ((name, c ∷ value) ∷ entries) st l d q =
      let (l₁, l₂) = neither (str_eq name (codes "measure_location")) _ l in
      let (d₁, d₂) = neither (str_eq name (codes "device_name")) _ d in
      let (q₁, q₂) = neither (str_eq name (codes "query_interval")) _ q in
      rw (l₁, q₁, d₁) (put_settings_unset entries st l₂ d₂ q₂)
    where
      neither : (a b : Bool) → (a || b) ≡ false → (a ≡ false) × (b ≡ false)
      neither a b h = ground arith

  -- A reload from a file that sets none of the three strings leaves the pointers to the strings
  -- that it freed: where each of them was a live block and no two were the same, the next reload
  -- frees one of them again, if there was one, and the behaviour is undefined.
  pub reload_config_stale :
      (entries entries' : List IniEntry) (st : Store) (x : ℕ)
      → sets (codes "measure_location") entries ≡ false
      → sets (codes "device_name") entries ≡ false
      → sets (codes "query_interval") entries ≡ false
      → Owns st
      → 0 < count x (blocks (config_ptrs st.config))
      → count x st.live ≡ count x (blocks (config_ptrs st.config))
      → (e : Fault) × ((reload_config strdup entries st >>= reload_config strdup entries')
          ≡ fault e)
  unfolding reload_config
  reload_config_stale entries entries' st x l d q o some_string once =
      let freed =
        Returns-ret (config_ptrs st.config) st.live (free_config st.config st.live)
          ((free_config-Frees [] st.config).run st.live λ y. omega (arith, o.owned y)) in
      let (live, e, balance) = freed in
      let (f, again) =
        free_config_twice st.config live x some_string (omega (arith, balance x, once)) in
      (
        f,
        rw (e, put_settings_unset entries (record { config = st.config; live = live }) l d q, again)
            refl,
      )
