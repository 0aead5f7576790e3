-- ===== src/System/Draining.antt =====
-- How many rounds the messages in the queues take.
use rpiweatherd.Base.{
  ℕ, suc, ◌+◌, ◌<◌, ◌≡◌, ◌≤◌, Option, none, some, List, [], ◌∷◌, ◌++◌, Bytes, ret, Holds,
  Holds-bind, Holds-ret, arith, ap,
}
use rpiweatherd.Data.Json.{Call}
use rpiweatherd.Database.Thread.{db_thread_message}
use rpiweatherd.Database.Thread.Completes.{Sends, db_thread_message-Sends}
use rpiweatherd.Listener.Message.{Message}
use rpiweatherd.Listener.Table.{Services, cmd_callback_table}
use rpiweatherd.Listener.Table.Keeps.{cmd_callback_table-KeepsAny}
use rpiweatherd.Listener.Worker.{worker_round}
use rpiweatherd.System.{State, Turn, to_workers, to_db, sent_back, work, store}
use rpiweatherd.System.Handled.{worker_weight, db_weight, Settles, worker_round-Settles}

module _ {F : Type 0} where
  worker_weight-append :
      (xs ys : List (Message F)) → worker_weight (xs ++ ys) ≡ worker_weight xs + worker_weight ys
  worker_weight-append [] ys = omega arith
  worker_weight-append (m ∷ xs) ys = omega (arith, worker_weight-append xs ys)

  db_weight-append : (xs ys : List (Message F)) → db_weight (xs ++ ys) ≡ db_weight xs + db_weight ys
  db_weight-append [] ys = omega arith
  db_weight-append (m ∷ xs) ys = omega (arith, db_weight-append xs ys)

  -- A bound on the rounds that the messages of the queues still take.
  abbrev pub rounds_left : {Db : Type 0} → State F Db → ℕ
  rounds_left s = worker_weight s.worker_queue + db_weight s.db_queue

  -- The next state of a round: fewer rounds are left.
  record Lessens {Db : Type 0} (s t : State F Db) : Type 0 where
    fewer : rounds_left t < rounds_left s

  sent_back-weight :
      (msg : Message F) (sent : Option (Message F))
      → Sends msg sent
      → worker_weight (sent_back sent) ≤ 1
  sent_back-weight msg none sends = omega arith
  sent_back-weight msg (some msg') sends = ground (arith, sends.completed)

module _ {F : Type 0} (services : Services F) (serialize : List (Call F) → Option Bytes) where
  work-Lessens :
      (turn : Turn F) (msg : Message F) (queue : List (Message F)) (s : State F services.sql.Db)
      → s.worker_queue ≡ msg ∷ queue
      → Holds (Lessens s) (work services serialize turn msg queue s)
  unfolding work
  work-Lessens turn msg queue s front =
      Holds-bind (Lessens s)
        (worker_round services.malloc (cmd_callback_table services s.db turn.moment) serialize
          (record { message = msg; input = turn.input; stale = turn.stale })
          (s.workers turn.thread))
        _
        λ (acts, w) e.
          let settles : Settles msg acts =
            Holds-ret (λ result. Settles msg result.0) _
              (worker_round-Settles services.malloc (cmd_callback_table services s.db turn.moment)
                serialize _ (s.workers turn.thread)
                (cmd_callback_table-KeepsAny services s.db turn.moment))
              e in
          record {
            fewer = omega (
              arith,
              settles.lighter,
              ap worker_weight front,
              worker_weight-append queue (to_workers acts),
              db_weight-append s.db_queue (to_db acts),
            );
          }

  store-Lessens :
      (msg : Message F) (queue : List (Message F)) (s : State F services.sql.Db)
      → s.db_queue ≡ msg ∷ queue
      → Holds (Lessens s) (store services serialize msg queue s)
  unfolding store
  store-Lessens msg queue s front =
      Holds-bind (Lessens s)
        (db_thread_message services.sql services.to_farenheit services.malloc s.db msg) _
        λ (db, sent) e. record {
          fewer = omega (
            arith,
            ap db_weight front,
            worker_weight-append s.worker_queue (sent_back sent),
            sent_back-weight msg sent (
                db_thread_message-Sends services.sql services.to_farenheit services.malloc s.db msg
                  e),
          );
        }

  -- A number of rounds of the workers and of the thread of the data base, in any order, while no
  -- client is accepted and nothing is measured. A bound of the queues only rules out some of them.
  pub data Rounds : State F services.sql.Db → ℕ → State F services.sql.Db → Type 0 where
    done : (s : State F services.sql.Db) → Rounds s 0 s
    works_first :
        (s t u : State F services.sql.Db) (n : ℕ) (turn : Turn F) (msg : Message F)
        (queue : List (Message F))
        → s.worker_queue ≡ msg ∷ queue
        → work services serialize turn msg queue s ≡ ret t
        → Rounds t n u
        → Rounds s (suc n) u
    stores_first :
        (s t u : State F services.sql.Db) (n : ℕ) (msg : Message F) (queue : List (Message F))
        → s.db_queue ≡ msg ∷ queue
        → store services serialize msg queue s ≡ ret t
        → Rounds t n u
        → Rounds s (suc n) u

  -- As long as no client is accepted and nothing is measured, there is an end to the rounds of the
  -- workers and of the thread of the data base, in whatever order and whatever they read: they and
  -- the rounds that the messages left behind them take are at most three for each message in the
  -- workers' queue, one if it is completed, and two for each message in the queue of the data base.
  pub Rounds-bounded :
      {s t : State F services.sql.Db} {n : ℕ} → Rounds s n t → n + rounds_left t ≤ rounds_left s
  Rounds-bounded (done s) = omega arith
  Rounds-bounded (works_first s t u n turn msg queue front e rounds) =
      let l = Holds-ret (Lessens s) _ (work-Lessens turn msg queue s front) e in
      omega (arith, l.fewer, Rounds-bounded rounds)
  Rounds-bounded (stores_first s t u n msg queue front e rounds) =
      let l = Holds-ret (Lessens s) _ (store-Lessens msg queue s front) e in
      omega (arith, l.fewer, Rounds-bounded rounds)
