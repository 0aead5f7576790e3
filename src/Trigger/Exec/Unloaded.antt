-- ===== src/Trigger/Exec/Unloaded.antt =====
-- The rounds of trigger_exec_callback behind unload_triggers, as query_loop calls them behind a
-- reload.
use rpiweatherd.Base.{
  ℕ, ◌≤◌, ◌≡◌, refl, Bool, Option, none, some, List, [], ◌∷◌, ◌++◌, Bytes, All, Outcome, ret, ◌>>=◌,
  >>=-eq-ret, arith,
}
use rpiweatherd.CLib.Text.{Malloc}
use rpiweatherd.Trigger.Floats.{Floats}
use rpiweatherd.Trigger.Load.{Triggers, free_first, unload_triggers}
use rpiweatherd.Trigger.Exec.{Event, exec_triggers, trigger_exec_callback}

-- What one call meets: the time of the trigger file's last change, none if stat fails, the lines of
-- the file, errno and the measurements.
pub record Round (F : Type 0) : Type 0 where
  pub ctime : Option ℕ
  pub file : Option (List Bytes)
  pub erange : Bool
  pub measurements : List F

-- The file was not changed after the time `t`.
abbrev pub IsOlder : {F : Type 0} → ℕ → Round F → Type 0
IsOlder t r = (c : ℕ) → r.ctime ≡ some c → c ≤ t

module _ {F : Type 0} (fl : Floats F) (malloc : Malloc) where
  -- The calls one after the other, on the static table.
  unfoldable pub exec_rounds : List (Round F) → Triggers F → Outcome (List Event × Triggers F)
  unfolding trigger_exec_callback
  exec_rounds [] st = ret ([], st)
  exec_rounds (r ∷ rounds) st = do
    (events, _, st') ← trigger_exec_callback fl malloc r.erange r.ctime r.file st r.measurements
    (events', st'') ← exec_rounds rounds st'
    ret (events ++ events', st'')

  trigger_exec_callback-empty :
      (erange : Bool) (ctime : Option ℕ) (file : Option (List Bytes)) (st : Triggers F)
      (ms : List F)
      → st.count ≡ 0
      → ((c : ℕ) → ctime ≡ some c → c ≤ st.last_update)
      → trigger_exec_callback fl malloc erange ctime file st ms ≡ ret ([], ms, st)
  unfolding trigger_exec_callback exec_triggers
  trigger_exec_callback-empty erange none file st ms e old = refl
  trigger_exec_callback-empty erange (some c) file st ms e old =
      let le : c ≤ st.last_update = old c refl in ground arith

  exec_rounds-empty :
      (rounds : List (Round F)) (st : Triggers F)
      → st.count ≡ 0
      → All (IsOlder st.last_update) rounds
      → exec_rounds rounds st ≡ ret ([], st)
  unfolding exec_rounds
  exec_rounds-empty [] st e old = refl
  exec_rounds-empty (r ∷ rounds) st e (o, old) = ground (
    arith,
    trigger_exec_callback-empty r.erange r.ctime r.file st r.measurements e o,
    exec_rounds-empty rounds st e old,
  )

  -- Behind unload_triggers no trigger is executed, nor is the table changed, in any number of
  -- calls of trigger_exec_callback, whatever the measurements, until one that finds the trigger
  -- file changed after the time of the last load, which unload_triggers does not reset.
  pub exec_rounds-unload_triggers :
      (rounds : List (Round F)) (st : Triggers F) {st' : Triggers F}
      → unload_triggers st ≡ ret st'
      → All (IsOlder st.last_update) rounds
      → exec_rounds rounds st' ≡ ret ([], st')
  unfolding unload_triggers
  exec_rounds-unload_triggers rounds st {st' = st'} h old =
      let (table, e, h') = >>=-eq-ret (free_first st.count st.table) _ h in
      let count : st'.count ≡ 0 = ground arith in
      let update : st.last_update ≡ st'.last_update = ground arith in
      exec_rounds-empty rounds st' count (rw update at old)
