-- ===== src/System.antt =====
-- The threads together: main_listener_loop of src/listener.c accepts clients and puts messages into
-- the queue of the workers, each round of worker_listener_loop takes one from there, each round of
-- db_thread_event_loop of src/dbhandler.c takes one from the queue of the data base, and query_loop
-- of src/rpiweatherd.c puts the measurements there. A step is one round of one thread. A full queue
-- makes its senders wait, which is no step.
pub mod Handled
pub mod Conservation
pub mod Draining
pub mod Answers
pub mod Types
use rpiweatherd.Base.{
  ℕ, zero, suc, ℤ, pos, Bool, Option, none, some, List, [], ◌∷◌, ◌++◌, ◌==◌, ◌≡◌, if◌then◌else◌,
  Bytes, Outcome, ret, ◌>>=◌,
}
use rpiweatherd.Data.Json.{Call}
use rpiweatherd.Database.Thread.{db_thread_message, request_write_entry}
use rpiweatherd.Listener.Message.{Message, default_unitstr, rpiwd_mqmsg_init}
use rpiweatherd.Listener.Table.{Services, Moment, cmd_callback_table}
use rpiweatherd.Listener.Worker.{
  Input, Worker, Action, send_error, send_data, close, send_to_db, send_to_workers, worker_round,
  fresh_worker,
}

-- The data base, the variables of each worker, the two queues, and the sockets that were accepted
-- and that were closed.
pub record State (F Db : Type 0) : Type 0 where
  pub db : Db
  pub workers : ℕ → Worker
  pub worker_queue : List (Message F)
  pub db_queue : List (Message F)
  pub accepted : List ℤ
  pub closed : List ℤ

-- What a round of a worker meets: its thread, what the command finds, what is read, and what the
-- buffer holds.
pub record Turn (F : Type 0) : Type 0 where
  pub thread : ℕ
  pub moment : Moment F
  pub input : Input
  pub stale : Bytes

module _ {F : Type 0} where
  -- The effects of the actions of a round for a socket.
  abbrev pub closed_by : ℤ → List (Action F) → List ℤ
  closed_by socket [] = []
  closed_by socket (close ∷ acts) = socket ∷ closed_by socket acts
  closed_by socket (_ ∷ acts) = closed_by socket acts

  abbrev pub to_workers : List (Action F) → List (Message F)
  to_workers [] = []
  to_workers (send_to_workers msg ∷ acts) = msg ∷ to_workers acts
  to_workers (_ ∷ acts) = to_workers acts

  abbrev pub to_db : List (Action F) → List (Message F)
  to_db [] = []
  to_db (send_to_db msg ∷ acts) = msg ∷ to_db acts
  to_db (_ ∷ acts) = to_db acts

  abbrev pub sent_back : Option (Message F) → List (Message F)
  sent_back none = []
  sent_back (some msg) = msg ∷ []

  -- The message that a new client's socket travels in.
  abbrev pub arrival : ℕ → Message F → Message F
  arrival socket stale = record (rpiwd_mqmsg_init default_unitstr stale) { sockfd = pos socket }

module _ {F Db : Type 0} where
  unfoldable pub accept_client : ℕ → Message F → State F Db → State F Db
  accept_client socket stale s = record s {
    worker_queue = s.worker_queue ++ (arrival socket stale ∷ []);
    accepted = pos socket ∷ s.accepted;
  }

  abbrev pub after_round :
      ℕ → Message F → List (Message F) → List (Action F) × Worker → State F Db → State F Db
  after_round thread msg queue (acts, w) s = record s {
    workers = λ i. if i == thread then w else s.workers i;
    worker_queue = queue ++ to_workers acts;
    db_queue = s.db_queue ++ to_db acts;
    closed = closed_by msg.sockfd acts ++ s.closed;
  }

module _ {F : Type 0} (services : Services F) (serialize : List (Call F) → Option Bytes) where
  abbrev pub Db : Type 0
  Db = services.sql.Db

  -- A worker's round on the message at the front of its queue.
  unfoldable pub work : Turn F → Message F → List (Message F) → State F Db → Outcome (State F Db)
  work turn msg queue s = do
    result ←
        worker_round services.malloc (cmd_callback_table services s.db turn.moment) serialize
          (record { message = msg; input = turn.input; stale = turn.stale }) (s.workers turn.thread)
    ret (after_round turn.thread msg queue result s)

  -- A round of the thread of the data base on the message at the front of its queue.
  unfoldable pub store : Message F → List (Message F) → State F Db → Outcome (State F Db)
  store msg queue s = do
    (db, sent) ← db_thread_message services.sql services.to_farenheit services.malloc s.db msg
    ret (record s { db = db; db_queue = queue; worker_queue = s.worker_queue ++ sent_back sent })

  pub data Step : State F Db → State F Db → Type 0 where
    accepts :
        (s : State F Db) (socket : ℕ) (stale : Message F) → Step s (accept_client socket stale s)
    measures :
        (s : State F Db) (stale : Message F) (stale_id : ℤ) (temp humid : F) (msg : Message F)
        → request_write_entry services.malloc stale stale_id temp humid
            services.config.measure_location services.config.device_name
          ≡ ret msg
        → Step s (record s { db_queue = s.db_queue ++ (msg ∷ []) })
    works :
        (s t : State F Db) (turn : Turn F) (msg : Message F) (queue : List (Message F))
        → s.worker_queue ≡ msg ∷ queue
        → work turn msg queue s ≡ ret t
        → Step s t
    stores :
        (s t : State F Db) (msg : Message F) (queue : List (Message F))
        → s.db_queue ≡ msg ∷ queue
        → store msg queue s ≡ ret t
        → Step s t

  -- Before the first client.
  abbrev pub initial : Db → State F Db
  initial db = record {
    db = db;
    workers = λ i. fresh_worker;
    worker_queue = [];
    db_queue = [];
    accepted = [];
    closed = [];
  }

  pub data Reach : State F Db → Type 0 where
    here : (db : Db) → Reach (initial db)
    next : {s t : State F Db} → Reach s → Step s t → Reach t
