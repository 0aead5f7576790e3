-- ===== src/Trigger/Exec.antt =====
-- src/trigger.c: trigger_exec_callback. What it does to the pins and the processes is a list of
-- events.
pub mod Conversion
pub mod Unloaded
use rpiweatherd.Base.{
  ℕ, Bool, Option, none, some, List, [], ◌∷◌, ◌++◌, ◌==◌, ltb, pos, eq_ℤ, if◌then◌else◌, Bytes,
  take, Outcome, ret, fault, null_pointer, dangling, ◌>>=◌,
}
use rpiweatherd.CLib.Text.{Malloc, atoi}
use rpiweatherd.Trigger.Floats.{Floats}
use rpiweatherd.Trigger.Codes.{action_exec, action_pinup, action_pindown}
use rpiweatherd.Trigger.Parse.{Pointer, null, live, freed, Trigger}
use rpiweatherd.Trigger.Load.{Triggers, load_triggers}
use rpiweatherd.Trigger.Eval.{trigger_should_execute}
use rpiweatherd.Trigger.Args.{post_process_args}

-- pinMode to output and digitalWrite, or a forked child with its program and argument.
pub data Event : Type 0 where
  write_pin : ℕ → ℕ → Event
  spawn : Bytes → Bytes → Event

-- The string that a pointer leads to.
unfoldable pub deref : Pointer → Outcome Bytes
deref null = fault null_pointer
deref (live s) = ret s
deref freed = fault dangling

module _ {F : Type 0} (fl : Floats F) where
  -- The switch over the action.
  unfoldable pub run_action : Trigger F → List F → Outcome (List Event)
  unfolding deref
  run_action trig ms =
      if trig.action == action_pinup
      then (do target ← deref trig.target; ret (write_pin (atoi target) 1 ∷ []))
      else if trig.action == action_pindown
      then (do target ← deref trig.target; ret (write_pin (atoi target) 0 ∷ []))
      else if trig.action == action_exec
      then (do
        processed ← post_process_args fl ms trig.args
        target ← deref trig.target
        args ← elim processed as (λ _. Outcome Bytes) [
          | none ↦ deref trig.args
          | some text ↦ ret text
        ]
        ret (spawn target args ∷ []))
      else ret []

  -- One round of the loop. A condition that could not be evaluated is logged and executed.
  unfoldable pub exec_trigger : Trigger F → List F → Outcome (List Event × List F)
  exec_trigger trig ms = do
    (eval_flag, ms') ← trigger_should_execute fl trig ms
    if eq_ℤ eval_flag (pos 0)
        then ret ([], ms')
        else (do events ← run_action trig ms'; ret (events, ms'))

  -- The loop. The measurements are handed on from trigger to trigger.
  unfoldable pub exec_triggers : List (Trigger F) → List F → Outcome (List Event × List F)
  exec_triggers [] ms = ret ([], ms)
  exec_triggers (trig ∷ trigs) ms = do
    (events, ms') ← exec_trigger trig ms
    (events', ms'') ← exec_triggers trigs ms'
    ret (events ++ events', ms'')

  -- `ctime` is the time of the trigger file's last change, none if stat fails; then nothing is
  -- executed. The events, the measurements and the static state.
  unfoldable pub trigger_exec_callback :
      Malloc
      → Bool
      → Option ℕ
      → Option (List Bytes)
      → Triggers F
      → List F
      → Outcome (List Event × List F × Triggers F)
  trigger_exec_callback malloc erange none file st ms = ret ([], ms, st)
  trigger_exec_callback malloc erange (some ctime) file st ms = do
    st' ←
        (if ltb st.last_update ctime
          then (do
            (_, loaded) ← load_triggers fl malloc file erange (record st { last_update = ctime })
            ret loaded)
          else ret st)
    (events, ms') ← exec_triggers (take st'.count st'.table) ms
    ret (events, ms', st')
