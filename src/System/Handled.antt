-- ===== src/System/Handled.antt =====
-- What becomes of the message that a round of a worker takes.
use rpiweatherd.Base.{
  All, ℕ, suc, ◌+◌, ◌≡◌, refl, ◌≤◌, ℤ, false, not, ◌||◌, Option, none, some, List, [], ◌∷◌, ◌++◌,
  ◌==◌, map, if◌then◌else◌, Bytes, codes, str_eq, Holds, Holds-bind, Holds-if, Holds-intro,
  Holds-ret, eq_ℤ_iff, arith,
}
use rpiweatherd.CLib.Text.{Malloc}
use rpiweatherd.Data.Json.{Call}
use rpiweatherd.Http.Params.{HttpCmd}
use rpiweatherd.Listener.Codes.{success, msgtype_writeentry}
use rpiweatherd.Listener.Message.{Message}
use rpiweatherd.Listener.Table.{Callback}
use rpiweatherd.Listener.Table.Keeps.{Keeps, KeepsAny}
use rpiweatherd.Listener.Worker.{
  Worker, Round, Action, dispatch_command, after_dispatch, answer_request, read_and_parse_response,
  message_json, answer_completed, worker_round,
}
use rpiweatherd.System.{closed_by, to_workers, to_db}

module _ {F : Type 0} where
  abbrev pub sockets : List (Message F) → List ℤ
  sockets queue = map (λ m. m.sockfd) queue

  -- The rounds that a message still takes, at most.
  abbrev pub weight : Message F → ℕ
  weight msg = if msg.is_completed then 1 else 3

  abbrev pub worker_weight : List (Message F) → ℕ
  worker_weight [] = 0
  worker_weight (m ∷ ms) = weight m + worker_weight ms

  abbrev pub db_weight : List (Message F) → ℕ
  db_weight [] = 0
  db_weight (m ∷ ms) = suc (suc (db_weight ms))

  -- The socket is closed once or travels on in one message, for which fewer rounds are left; only
  -- queries go to the data base.
  pub record Settles (msg : Message F) (acts : List (Action F)) : Type 0 where
    pub one_place :
        closed_by msg.sockfd acts ++ (sockets (to_workers acts) ++ sockets (to_db acts))
        ≡ msg.sockfd ∷ []
    pub lighter : suc (worker_weight (to_workers acts) + db_weight (to_db acts)) ≤ weight msg
    pub queries : All (λ m. (m.mtype == msgtype_writeentry) ≡ false) (to_db acts)

  dispatch_command-Keeps :
      (table : List (Bytes × Callback F)) (cmd : HttpCmd) (msg : Message F)
      → All (λ row. KeepsAny row.1) table
      → Holds (λ r. Keeps msg r.0 r.1) (dispatch_command table cmd msg)
  unfolding dispatch_command
  dispatch_command-Keeps [] cmd msg h = record { same_socket = refl; served = λ ok _. cc }
  dispatch_command-Keeps ((name, callback) ∷ rows) cmd msg h =
      Holds-if _ (str_eq name cmd.cmdname) _ _
        (λ _. Holds-intro (λ r. Keeps msg r.0 r.1) (callback cmd msg) λ r e. h.0 cmd msg r.0 r.1 e)
        λ _. dispatch_command-Keeps rows cmd msg h.1

  after_dispatch-Settles :
      (msg : Message F) (r : ℤ × Message F)
      → msg.is_completed ≡ false
      → Keeps msg r.0 r.1
      → Settles msg (after_dispatch r)
  unfolding after_dispatch
  after_dispatch-Settles msg (code, msg') arriving k = record {
    one_place = ground (arith, k.same_socket);
    lighter = ground (arith, k.served, eq_ℤ_iff code success);
    queries = ground (arith);
  }

  answer_request-Settles :
      (table : List (Bytes × Callback F)) (msg : Message F) (request : Option HttpCmd × Worker)
      → msg.is_completed ≡ false
      → All (λ row. KeepsAny row.1) table
      → Holds (λ r. Settles msg r.0) (answer_request table msg request)
  unfolding answer_request
  answer_request-Settles table msg (none, w) arriving keeps = record {
    one_place = ground arith;
    lighter = ground arith;
    queries = ground arith;
  }
  answer_request-Settles table msg (some cmd, w) arriving keeps =
      Holds-if _
        (str_eq cmd.cmdname (codes "favicon.ico") || str_eq cmd.cmdname (codes "text-html")) _ _
        (λ _. record { one_place = refl; lighter = ground arith; queries = tt })
        λ _.
          Holds-bind (λ r. Settles msg r.0) (dispatch_command table cmd msg) _
            λ r e. after_dispatch-Settles msg r arriving (
              Holds-ret (λ r. Keeps msg r.0 r.1) (dispatch_command table cmd msg)
                (dispatch_command-Keeps table cmd msg keeps) e)

  answer_completed-Settles :
      (serialize : List (Call F) → Option Bytes) (msg : Message F) (w : Worker)
      (jval : Option (List (Call F)))
      → Settles msg (answer_completed serialize msg w jval).0
  unfolding answer_completed
  answer_completed-Settles serialize msg w none = record {
    one_place = refl;
    lighter = ground arith;
    queries = tt;
  }
  answer_completed-Settles serialize msg w (some calls) = record {
    one_place = refl;
    lighter = ground arith;
    queries = tt;
  }

  -- A round settles the message that it takes.
  pub worker_round-Settles :
      (malloc : Malloc) (table : List (Bytes × Callback F))
      (serialize : List (Call F) → Option Bytes) (r : Round F) (w : Worker)
      → All (λ row. KeepsAny row.1) table
      → Holds (λ result. Settles r.message result.0) (worker_round malloc table serialize r w)
  unfolding worker_round
  worker_round-Settles malloc table serialize r w keeps =
      Holds-if _ (not r.message.is_completed) _ _
        (λ arriving.
          Holds-bind (λ result. Settles r.message result.0)
            (read_and_parse_response malloc r.stale r.input w) _
            λ request _. answer_request-Settles table r.message request (ground arith) keeps)
        λ _.
          Holds-bind (λ result. Settles r.message result.0) (message_json w.jval_freed r.message) _
            λ jval _. answer_completed-Settles serialize r.message w jval
