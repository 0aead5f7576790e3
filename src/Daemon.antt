-- ===== src/Daemon.antt =====
-- src/rpiweatherd.c: the queries of one round of query_loop. The codes that the queries return,
-- call by call, are a parameter.
pub mod Attempts
pub mod Arguments
pub mod Start
pub mod Loop
use rpiweatherd.Base.{
  ℕ, zero, suc, ◌+◌, ℤ, pos, neg, Bool, true, false, ◌||◌, Option, none, some, List, [], ◌∷◌, leb,
  eq_ℤ, if◌then◌else◌,
}

abbrev pub config_max_query_attempts : ℕ
config_max_query_attempts = 64

-- How the queries of a round end: with the results of a call, without memory, or with too many
-- failures.
pub data Ending : Type 0 where
  written : ℕ → Ending
  out_of_memory : Ending
  given_up : Ending

abbrev pub is_failure : ℤ → Bool
is_failure retflag = eq_ℤ retflag (neg 1) || (eq_ℤ retflag (neg 2) || eq_ℤ retflag (neg 3))

-- The loop over the attempts, from call `n` on. A code that the switch does not name is not
-- counted. The fuel is a bound on the calls; none where it runs out.
unfoldable pub query_data : (ℕ → ℤ) → ℕ → ℕ → ℕ → Option Ending
query_data retflags zero n qattempts =
    if leb config_max_query_attempts qattempts then some given_up else none
query_data retflags (suc fuel) n qattempts =
    let failed = is_failure (retflags n) in
    let later = query_data retflags fuel (suc n) (if failed then qattempts + 1 else qattempts) in
    if leb config_max_query_attempts qattempts
    then some given_up
    else if eq_ℤ (retflags n) (pos 0)
    then some (written n)
    else if eq_ℤ (retflags n) (neg 4)
    then some out_of_memory
    else later

-- What a round does behind its queries.
pub data Step : Type 0 where
  write_entry : ℕ → Step
  exec_triggers : Step
  sleep : ℕ → Step

-- `millis` is the query interval. The triggers are executed if ok_flag is set.
unfoldable pub query_steps : ℕ → Ending → List Step
query_steps millis (written n) = write_entry n ∷ exec_triggers ∷ sleep millis ∷ []
query_steps millis out_of_memory = exec_triggers ∷ sleep millis ∷ []
query_steps millis given_up = sleep millis ∷ []
