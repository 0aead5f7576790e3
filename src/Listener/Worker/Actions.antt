-- ===== src/Listener/Worker/Actions.antt =====
-- What one round does to the client's socket.
use rpiweatherd.Base.{
  ℕ, suc, ◌+◌, ◌≡◌, ◌≤◌, ℤ, Bool, true, false, not, Option, none, some, List, [], ◌∷◌,
  if◌then◌else◌, Bytes, Outcome, ret, ◌⊎◌, >>=-eq-ret, arith, Bool-cases, inl, inr, str_eq, codes,
  ◌||◌,
}
use mathlib.Core.Path.{subst}
use rpiweatherd.CLib.Text.{Malloc}
use rpiweatherd.Http.Params.{HttpCmd}
use rpiweatherd.Listener.Message.{Message}
use rpiweatherd.Listener.Table.{Callback}
use rpiweatherd.Data.Json.{Call}
use rpiweatherd.Listener.Worker.{
  message_json, Worker, Action, send_error, send_data, close, send_to_db, send_to_workers, Round,
  read_and_parse_response, dispatch_command, after_dispatch, answer_request, answer_completed,
  worker_round,
}

if_not :
    {A : Type 0} (b : Bool) (x y : A) {z : A} → (if not b then x else y) ≡ z → (x ≡ z) ⊎ (y ≡ z)
if_not true x y h = inr h
if_not false x y h = inl h

module _ {F : Type 0} where
  abbrev pub closes : List (Action F) → ℕ
  closes [] = 0
  closes (close ∷ acts) = suc (closes acts)
  closes (_ ∷ acts) = closes acts

  abbrev pub answers : List (Action F) → ℕ
  answers [] = 0
  answers (send_error _ _ _ ∷ acts) = suc (answers acts)
  answers (send_data _ _ ∷ acts) = suc (answers acts)
  answers (_ ∷ acts) = answers acts

  abbrev pub forwards : List (Action F) → ℕ
  forwards [] = 0
  forwards (send_to_db _ ∷ acts) = suc (forwards acts)
  forwards (send_to_workers _ ∷ acts) = suc (forwards acts)
  forwards (_ ∷ acts) = forwards acts

  -- The round closes the socket or passes the message on, never both; what it passes on it does
  -- not answer, and it answers once at most.
  pub record IsOrderly (acts : List (Action F)) : Type 0 where
    pub one_end : closes acts + forwards acts ≡ 1
    pub one_answer : answers acts ≤ closes acts

  after_dispatch-IsOrderly : (result : ℤ × Message F) → IsOrderly (after_dispatch result)
  unfolding after_dispatch
  after_dispatch-IsOrderly (code, msg) = ground arith

  answer_completed-IsOrderly :
      (serialize : List (Call F) → Option Bytes) (msg : Message F) (w : Worker)
      (jval : Option (List (Call F)))
      → IsOrderly (answer_completed serialize msg w jval).0
  unfolding answer_completed
  answer_completed-IsOrderly serialize msg w none = ground arith
  answer_completed-IsOrderly serialize msg w (some calls) = ground arith

  of_ret :
      (w : Worker) {acts : List (Action F)} {w' : Worker} (found : List (Action F))
      → ◌≡◌ {A = Outcome (List (Action F) × Worker)} (ret (found, w)) (ret (acts, w'))
      → IsOrderly found
      → IsOrderly acts
  of_ret w {acts} {w'} found h orderly = let e : found ≡ acts = cc in subst IsOrderly e orderly

  answer_request-IsOrderly :
      (table : List (Bytes × Callback F)) (msg : Message F) (request : Option HttpCmd × Worker)
      {acts : List (Action F)} {w' : Worker}
      → answer_request table msg request ≡ ret (acts, w')
      → IsOrderly acts
  unfolding answer_request
  answer_request-IsOrderly table msg (none, w) h = of_ret w _ h (ground arith)
  answer_request-IsOrderly table msg (some cmd, w) h =
      elim (Bool-cases
        (str_eq cmd.cmdname (codes "favicon.ico") || str_eq cmd.cmdname (codes "text-html"))) [
          | inl e ↦ let h' = rw e at h in of_ret w _ h' (ground arith)
          | inr e ↦
              let h' = rw e at h in
              let (result, _, sent) = >>=-eq-ret (dispatch_command table cmd msg) _ h' in
              of_ret w _ sent (after_dispatch-IsOrderly result)
        ]

  -- Where a round of a worker ends, whatever the request is and whatever the callbacks return, it
  -- has closed the client's socket once and passed nothing on, or passed the message on once and
  -- left the socket open; it has answered at most as often as it closed.
  pub worker_round-IsOrderly :
      (malloc : Malloc) (table : List (Bytes × Callback F))
      (serialize : List (Call F) → Option Bytes) (r : Round F) (w : Worker) {acts : List (Action F)}
      {w' : Worker}
      → worker_round malloc table serialize r w ≡ ret (acts, w')
      → IsOrderly acts
  unfolding worker_round
  worker_round-IsOrderly malloc table serialize r w h = elim (if_not r.message.is_completed _ _ h) [
    | inl read ↦
        let (request, _, answered) =
          >>=-eq-ret (read_and_parse_response malloc r.stale r.input w) _ read in
        answer_request-IsOrderly table r.message request answered
    | inr done ↦
        let (jval, _, answered) = >>=-eq-ret (message_json w.jval_freed r.message) _ done in
        of_ret (answer_completed serialize r.message w jval).1 _ answered
          (answer_completed-IsOrderly serialize r.message w jval)
  ]
