-- ===== src/Trigger/Eval/Reads.antt =====
-- Which measurement a condition is about.
use rpiweatherd.Base.{pos, ◌≡◌, Bool, some, List, ◌∷◌, if◌then◌else◌, ret, arith, ◌==◌, not, ◌&&◌}
use rpiweatherd.Trigger.Floats.{Floats}
use rpiweatherd.Trigger.Codes.{type_temp, type_humid}
use rpiweatherd.Trigger.Parse.{Trigger}
use rpiweatherd.Trigger.Eval.{
  measurement, convert_measurements_maybe, cond_test, eval_cond, trigger_should_execute,
}

module _ {F : Type 0} (fl : Floats F) (trig : Trigger F) (t h x : F) (ms : List F) where
  -- The condition of a `%temp%` trigger with an operation that the switch names is decided by the
  -- humidity, whatever the temperature; of at least three measurements, those that it leaves
  -- differ from those it was given in the temperature alone.
  pub trigger_should_execute_temp :
      {test : F → F → Bool}
      → trig.val_type ≡ type_temp
      → cond_test fl trig.op ≡ some test
      → (t' : F) × (trigger_should_execute fl trig (t ∷ h ∷ x ∷ ms)
          ≡ ret ((if test h trig.cond_value then pos 1 else pos 0), t' ∷ h ∷ x ∷ ms))
  unfolding trigger_should_execute eval_cond convert_measurements_maybe measurement
  trigger_should_execute_temp v o = (
    (if trig.val_type == type_temp && (not (trig.value_unit == b'c') && not (trig.value_unit == 0))
        then fl.to_farenheit t
        else t),
    rw (trigger_should_execute, o) (ground arith),
  )

  -- The condition of a `%humid%` trigger with an operation that the switch names is decided by the
  -- third of at least three measurements, and the measurements stay as they were.
  pub trigger_should_execute_humid :
      {test : F → F → Bool}
      → trig.val_type ≡ type_humid
      → cond_test fl trig.op ≡ some test
      → trigger_should_execute fl trig (t ∷ h ∷ x ∷ ms)
        ≡ ret ((if test x trig.cond_value then pos 1 else pos 0), t ∷ h ∷ x ∷ ms)
  unfolding trigger_should_execute eval_cond convert_measurements_maybe measurement
  trigger_should_execute_humid v o = rw (trigger_should_execute, o) (ground arith)
