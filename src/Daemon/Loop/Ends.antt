-- ===== src/Daemon/Loop/Ends.antt =====
-- A request to terminate is served.
use rpiweatherd.Base.{
  ℕ, ◌≤◌, ◌≡◌, refl, Bool, true, false, ◌||◌, Option, none, some, Option-cases, List, [], ◌∷◌, ◌++◌,
  map, if◌then◌else◌, arith, inl, inr, ap, sym, ◌∙◌, Bool-cases,
}
use mathlib.Core.Path.{subst}
use mathlib.Core.List.{append_assoc}
use rpiweatherd.Daemon.{query_data, query_steps}
use rpiweatherd.Daemon.Attempts.{is_named, query_data_fuel}
use rpiweatherd.Daemon.Loop.{
  Signal, sighup, sigterm, sigint, Flags, handle_signal, handle_signals, Act, round_step, reload,
  quit_routine, check_signals, Round, query_loop,
}

-- The switch names the codes of the queries, and the bound is that of the attempts.
pub record Queries (r : Round) : Type 0 where
  pub named : (i : ℕ) → is_named (r.retflags i) ≡ true
  pub enough : 64 ≤ r.calls

-- Whether a signal of the list makes the loop end, and whether one makes it reload.
abbrev pub terminates : List Signal → Bool
terminates [] = false
terminates (sighup ∷ signals) = terminates signals
terminates (_ ∷ signals) = true

abbrev pub hangs_up : List Signal → Bool
hangs_up [] = false
hangs_up (sighup ∷ signals) = true
hangs_up (_ ∷ signals) = hangs_up signals

handle_signals_lem :
    (signals : List Signal) (flags : Flags)
    → handle_signals signals flags ≡ record {
      hupsignal = flags.hupsignal || hangs_up signals;
      termsignal = flags.termsignal || terminates signals;
    }
unfolding handle_signals handle_signal
handle_signals_lem [] flags = ground arith
handle_signals_lem (sighup ∷ signals) flags = handle_signals_lem signals _ ∙ ground arith
handle_signals_lem (sigterm ∷ signals) flags = handle_signals_lem signals _ ∙ ground arith
handle_signals_lem (sigint ∷ signals) flags = handle_signals_lem signals _ ∙ ground arith

-- How the loop goes on behind a round, by what the check finds.
abbrev Continues : Round → List Round → Flags → List Act × Flags × Bool → Type 0
Continues r rs flags (checked, flags', goes_on) =
    (acts : List Act) × (query_loop (r ∷ rs) flags ≡ (
      if goes_on
      then elim (query_loop rs flags') as (λ _. Option (List Act × Bool)) [
        | none ↦ none
        | some (acts', ended) ↦ some ((acts ++ checked) ++ acts', ended)
      ]
      else some (acts ++ checked, true)))

-- Whatever the queries of a round end with, the loop goes on as the check says.
query_loop-Continues :
    (r : Round) (rs : List Round) (flags : Flags) {checked : List Act × Flags × Bool}
    → Queries r
    → check_signals (record {
      hupsignal = flags.hupsignal || hangs_up r.signals;
      termsignal = flags.termsignal || terminates r.signals;
    })
      ≡ checked
    → Continues r rs flags checked
unfolding query_loop
query_loop-Continues r rs flags q e = elim (Option-cases (query_data r.retflags r.calls 0 0)) [
  | inl stuck ↦
      absurd (query_data_fuel r.retflags r.calls 0 0 q.named (omega (arith, q.enough)) stuck)
  | inr (ending, found) ↦
      subst (Continues r rs flags) (ap check_signals (handle_signals_lem r.signals flags) ∙ e)
        (map round_step (query_steps r.millis ending), rw (query_loop, found) refl)
]

-- A round in which a request to terminate is pending and no request to reload is the last.
query_loop-last :
    (r : Round) (rs : List Round) (flags : Flags)
    → Queries r
    → (flags.hupsignal || hangs_up r.signals) ≡ false
    → (flags.termsignal || terminates r.signals) ≡ true
    → (acts : List Act) × (query_loop (r ∷ rs) flags ≡ some (acts ++ (quit_routine ∷ []), true))
unfolding check_signals
query_loop-last r rs flags q calm pending =
    query_loop-Continues r rs flags
      {checked = (quit_routine ∷ [], record { hupsignal = false; termsignal = true }, false)} q
      (rw (calm, pending) refl)

-- A request to terminate is never lost: if the switch names the codes of the queries, with 64 calls
-- for a round, a signal for it arrives in one round, and none to reload arrives in the next, then
-- the loop ends in one of the two, whatever was pending before and whatever rounds would follow,
-- and what it does last is to quit.
pub query_loop-Ends :
    (r r' : Round) (rs : List Round) (flags : Flags)
    → Queries r
    → Queries r'
    → terminates r.signals ≡ true
    → hangs_up r'.signals ≡ false
    → (acts : List Act) × (query_loop (r ∷ r' ∷ rs) flags
        ≡ some (acts ++ (quit_routine ∷ []), true))
unfolding check_signals
query_loop-Ends r r' rs flags q q' term no_hup =
    let pending : (flags.termsignal || terminates r.signals) ≡ true = ground (arith, term) in
    elim (Bool-cases (flags.hupsignal || hangs_up r.signals)) [
      | inr calm ↦ query_loop-last r (r' ∷ rs) flags q calm pending
      | inl hup ↦
          let (acts, e) =
            query_loop-Continues r (r' ∷ rs) flags
              {checked = (reload, record { hupsignal = false; termsignal = true }, true)} q
              (rw (hup, pending) refl) in
          let (acts', e') =
            query_loop-last r' rs (record { hupsignal = false; termsignal = true }) q' no_hup
              refl in
          (
            (acts ++ reload) ++ acts',
            (rw e' at e)
                ∙ ap (λ all. some (all, true))
                    (sym (append_assoc (acts ++ reload) acts' (quit_routine ∷ []))),
          )
    ]
