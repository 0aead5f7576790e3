-- ===== src/Trigger/Eval.antt =====
-- src/trigger.c: convert_measurements_maybe and trigger_should_execute.
pub mod Reads
use rpiweatherd.Base.{
  Option, ℕ, ℤ, pos, neg, Bool, not, ◌&&◌, none, some, List, ◌==◌, if◌then◌else◌, get_elem?, set,
  Outcome, ret, fault, read_overflow, ◌>>=◌,
}
use rpiweatherd.Trigger.Floats.{Floats}
use rpiweatherd.Trigger.Codes.{
  type_temp, cond_eq, cond_leq, cond_beq, cond_less, cond_more, cond_neq,
}
use rpiweatherd.Trigger.Parse.{Trigger}

-- RPIWD_MAX_MEASUREMENTS, RPIWD_MEASURE_TEMPERATURE and RPIWD_MEASURE_HUMIDITY.
abbrev pub max_measurements : ℕ
max_measurements = 8

abbrev pub measure_temperature : ℕ
measure_temperature = 0

abbrev pub measure_humidity : ℕ
measure_humidity = 1

module _ {F : Type 0} where
  -- A read of the array of measurements.
  unfoldable pub measurement : List F → ℕ → Outcome F
  measurement ms i = elim (get_elem? ms i) [ none ↦ fault read_overflow | some x ↦ ret x ]

module _ {F : Type 0} (fl : Floats F) where
  -- The array with the temperature converted in place, if the trigger asks for it.
  unfoldable pub convert_measurements_maybe : Trigger F → List F → Outcome (List F)
  convert_measurements_maybe trig ms =
      if trig.val_type == type_temp && (not (trig.value_unit == b'c') && not (trig.value_unit == 0))
      then (do
        t ← measurement ms measure_temperature
        ret (set ms measure_temperature (fl.to_farenheit t)))
      else ret ms

  -- The switch over the operation: the comparison of a measurement with the value.
  unfoldable pub cond_test : ℕ → Option (F → F → Bool)
  cond_test op =
      if op == cond_eq
      then some (λ x y. fl.eq x y)
      else if op == cond_beq
      then some (λ x y. fl.le y x)
      else if op == cond_leq
      then some (λ x y. fl.le x y)
      else if op == cond_less
      then some (λ x y. fl.lt x y)
      else if op == cond_more
      then some (λ x y. fl.lt y x)
      else if op == cond_neq
      then some (λ x y. not (fl.eq x y))
      else none

  -- The result of the condition, -1 for an operation that the switch does not name.
  unfoldable pub eval_cond : Option (F → F → Bool) → Trigger F → List F → Outcome ℤ
  eval_cond none trig ms = ret (neg 1)
  eval_cond (some test) trig ms = do
    x ← measurement ms trig.val_type
    ret (if test x trig.cond_value then pos 1 else pos 0)

  unfoldable pub trigger_should_execute : Trigger F → List F → Outcome (ℤ × List F)
  trigger_should_execute trig ms = do
    ms' ← convert_measurements_maybe trig ms
    cond_eval ← eval_cond (cond_test trig.op) trig ms'
    ret (cond_eval, ms')
