-- ===== src/Daemon/Loop.antt =====
-- src/rpiweatherd.c: query_loop with the signals that arrive during its rounds.
pub mod Ends
use rpiweatherd.Base.{
  ℕ, ℤ, Bool, true, false, Option, none, some, List, [], ◌∷◌, ◌++◌, if◌then◌else◌, map,
}
use rpiweatherd.Daemon.{Ending, Step, query_data, query_steps}

pub data Signal : Type 0 where
  sighup : Signal
  sigterm : Signal
  sigint : Signal

-- The variables that the handlers set.
pub record Flags : Type 0 where
  pub hupsignal : Bool
  pub termsignal : Bool

unfoldable pub handle_signal : Signal → Flags → Flags
handle_signal sighup flags = record flags { hupsignal = true }
handle_signal sigterm flags = record flags { termsignal = true }
handle_signal sigint flags = record flags { termsignal = true }

unfoldable pub handle_signals : List Signal → Flags → Flags
handle_signals [] flags = flags
handle_signals (signal ∷ signals) flags = handle_signals signals (handle_signal signal flags)

-- What the loop does besides the queries, call by call.
pub data Act : Type 0 where
  round_step : Step → Act
  quit_dbhandler : Act
  quit_listener_loop : Act
  unload_triggers : Act
  init_dbhandler : Act
  free_current_config : Act
  init_current_config : Act
  init_listener_loop : Act
  quit_routine : Act

unfoldable pub reload : List Act
reload =
    quit_dbhandler ∷ quit_listener_loop ∷ unload_triggers ∷ init_dbhandler ∷ free_current_config
    ∷ init_current_config ∷ init_listener_loop ∷ []

-- The check behind the sleep: the calls, the variables, and whether the loop goes on.
unfoldable pub check_signals : Flags → List Act × Flags × Bool
unfolding reload
check_signals flags =
    if flags.hupsignal
    then (reload, record flags { hupsignal = false }, true)
    else if flags.termsignal
    then (quit_routine ∷ [], flags, false)
    else ([], flags, true)

-- What a round meets: the codes of its queries, a bound on their number, the query interval, and
-- the signals that arrive until the check.
pub record Round : Type 0 where
  pub retflags : ℕ → ℤ
  pub calls : ℕ
  pub millis : ℕ
  pub signals : List Signal

-- The calls, and whether the loop has ended; none where the queries of a round do not end.
unfoldable pub query_loop : List Round → Flags → Option (List Act × Bool)
unfolding handle_signals
query_loop [] flags = some ([], false)
query_loop (r ∷ rs) flags =
    let (acts, flags', goes_on) = check_signals (handle_signals r.signals flags) in
    let later = query_loop rs flags' in
    elim (query_data r.retflags r.calls 0 0) [
      | none ↦ none
      | some ending ↦
          let round_acts = map round_step (query_steps r.millis ending) ++ acts in
          if goes_on
          then elim later [ none ↦ none | some (acts', ended) ↦ some (round_acts ++ acts', ended) ]
          else some (round_acts, true)
    ]
