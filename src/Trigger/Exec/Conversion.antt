-- ===== src/Trigger/Exec/Conversion.antt =====
-- The measurements are converted in place, once for each trigger that asks for it.
use rpiweatherd.Base.{
  sym, ℕ, zero, suc, ◌≡◌, refl, Bool, true, false, not, ◌&&◌, List, [], ◌∷◌, if◌then◌else◌, ret,
  >>=-eq-ret, arith, ◌==◌, ◌∙◌, ap,
}
use rpiweatherd.Trigger.Floats.{Floats}
use rpiweatherd.Trigger.Codes.{type_temp}
use rpiweatherd.Trigger.Parse.{Trigger}
use rpiweatherd.Trigger.Eval.{measurement, convert_measurements_maybe, trigger_should_execute}
use rpiweatherd.Trigger.Exec.{Event, exec_trigger, exec_triggers}

module _ {F : Type 0} where
  -- The trigger compares a temperature in a unit that is not Celsius.
  abbrev pub converts : Trigger F → Bool
  converts trig =
      trig.val_type == type_temp && (not (trig.value_unit == b'c') && not (trig.value_unit == 0))

  abbrev pub count_converts : List (Trigger F) → ℕ
  count_converts [] = 0
  count_converts (trig ∷ trigs) =
      if converts trig then suc (count_converts trigs) else count_converts trigs

module _ {F : Type 0} (fl : Floats F) where
  abbrev pub iterate : ℕ → F → F
  iterate zero t = t
  iterate (suc n) t = iterate n (fl.to_farenheit t)

  exec_trigger-converts :
      (trig : Trigger F) (t : F) (ms : List F) {events : List Event} {ms' : List F}
      → exec_trigger fl trig (t ∷ ms) ≡ ret (events, ms')
      → ms' ≡ (if converts trig then fl.to_farenheit t else t) ∷ ms
  unfolding exec_trigger trigger_should_execute convert_measurements_maybe measurement
  exec_trigger-converts trig t ms h = ground arith

  iterate_step :
      (b : Bool) (n : ℕ) (t : F)
      → iterate n (if b then fl.to_farenheit t else t) ≡ iterate (if b then suc n else n) t
  iterate_step true n t = refl
  iterate_step false n t = refl

  -- Where the loop over the triggers ends, the first measurement has been converted to Farenheit
  -- as often as triggers ask for that, each time from the result of the time before; the other
  -- measurements are as they were.
  pub exec_triggers-converts :
      (trigs : List (Trigger F)) (t : F) (ms : List F) {events : List Event} {ms' : List F}
      → exec_triggers fl trigs (t ∷ ms) ≡ ret (events, ms')
      → ms' ≡ iterate (count_converts trigs) t ∷ ms
  unfolding exec_triggers
  exec_triggers-converts [] t ms h = cc
  exec_triggers-converts (trig ∷ trigs) t ms {ms'} h =
      let ((e₁, ms₁), first, h') = >>=-eq-ret (exec_trigger fl trig (t ∷ ms)) _ h in
      let ((e₂, ms₂), later, h'') = >>=-eq-ret (exec_triggers fl trigs ms₁) _ h' in
      let e : ms₁ ≡ (if converts trig then fl.to_farenheit t else t) ∷ ms =
        exec_trigger-converts trig t ms first in
      let same : ms₂ ≡ ms' = cc h'' in
      sym same
      ∙ exec_triggers-converts trigs (if converts trig then fl.to_farenheit t else t) ms
          (rw e at later)
      ∙ ap (λ u. u ∷ ms) (iterate_step (converts trig) (count_converts trigs) t)
