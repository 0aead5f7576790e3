-- ===== src/Config/Errors.antt =====
-- Which configurations the check accepts.
use rpiweatherd.Base.{
  ℕ, ◌+◌, ◌≤◌, ℤ, pos, negsuc, ◌≡◌, ◌≢◌, ◌↔◌, refl, Bool, true, false, not, Option, none, some,
  Bytes, codes, str_eq, str_eq_iff, ret, >>=-eq-ret, arith, Bool-cases, inl, inr, ap, ◌∙◌,
}
use rpiweatherd.Config.{
  Config, is_supported_device, count_if, is_unset, has_bad_threads, config_has_errors,
}
use rpiweatherd.Device.Table.{supported_devices}

good_threads : (z : ℤ) → (has_bad_threads z ≡ false) ↔ ((n : ℕ) × (z ≡ pos n) × (1 ≤ n) × (n ≤ 4))
good_threads (pos n) = ((λ h. (n, refl, ground arith, ground arith)), λ (m, e, a, b). ground arith)
good_threads (negsuc n) = ((λ h. absurd (cc)), λ (m, e, a, b). absurd (cc))

-- The configuration that the check accepts.
pub record IsUsable (c : Config) : Type 0 where
  pub located : c.measure_location ≢ none
  pub named : c.device_name ≡ some (codes "dht11")
  pub interval : c.query_interval ≢ none
  pub threads : (n : ℕ) × (c.num_worker_threads ≡ pos n) × (1 ≤ n) × (n ≤ 4)

supported_iff :
    (name : Option Bytes)
    → (is_supported_device name supported_devices ≡ ret true) ↔ (name ≡ some (codes "dht11"))
unfolding is_supported_device
supported_iff none = ((λ h. cc), λ h. cc)
supported_iff (some name) = elim (Bool-cases (str_eq name (codes "dht11"))) [
  | inl known ↦ ((λ h. ap some ((str_eq_iff name (codes "dht11")).0 known)), λ h. rw known refl)
  | inr unknown ↦ (
    (λ h. absurd (let h' = rw unknown at h in cc)),
    λ h. absurd (
        let known : str_eq name (codes "dht11") ≡ true =
          (str_eq_iff name (codes "dht11")).1 (cc h) in
        cc),
  )
]

no_errors :
    (a nameflag b d : Bool)
    → ret (count_if a + count_if (not nameflag) + count_if b + count_if d) ≡ ret 0
    → (a ≡ false) × (nameflag ≡ true) × (b ≡ false) × (d ≡ false)
no_errors a nameflag b d h = ground arith

set_iff : (o : Option Bytes) → (is_unset o ≡ false) ↔ (o ≢ none)
set_iff none = ((λ h. cc), λ h. absurd (h refl))
set_iff (some s) = ((λ h e. cc), λ h. refl)

-- The check returns that there is no error exactly for a configuration with a location, the
-- sensor's name, a query interval, and one to four worker threads.
pub config_has_errors_iff : (c : Config) → (config_has_errors c ≡ ret 0) ↔ IsUsable c
unfolding config_has_errors
config_has_errors_iff c = (finds, passes)
  where
    finds : config_has_errors c ≡ ret 0 → IsUsable c
    finds h =
        let (nameflag, e, h') =
          >>=-eq-ret (is_supported_device c.device_name supported_devices) _ h in
        let (located, known, interval, threads) =
          no_errors (is_unset c.measure_location) nameflag (is_unset c.query_interval)
            (has_bad_threads c.num_worker_threads) h' in
        record {
          located = (set_iff c.measure_location).0 located;
          named = (supported_iff c.device_name).0 (e ∙ ap ret known);
          interval = (set_iff c.query_interval).0 interval;
          threads = (good_threads c.num_worker_threads).0 threads;
        }

    passes : IsUsable c → config_has_errors c ≡ ret 0
    passes u =
        rw
          (
            (supported_iff c.device_name).1 u.named,
            (set_iff c.measure_location).1 u.located,
            (set_iff c.query_interval).1 u.interval,
            (good_threads c.num_worker_threads).1 u.threads,
          )
          refl
