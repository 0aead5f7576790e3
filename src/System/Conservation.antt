-- ===== src/System/Conservation.antt =====
-- No thread loses a client's socket, closes it twice, or answers for two clients at once.
use rpiweatherd.Base.{
  All, All-append, All-map, ℕ, suc, ◌+◌, ◌≡◌, refl, ℤ, pos, true, false, Option, none, some, List,
  [], ◌∷◌, ◌++◌, ◌==◌, if◌then◌else◌, Bytes, Holds, Holds-bind, Holds-if, Holds-ret, eq_ℤ, arith,
  ap, ◌∙◌,
}
use mathlib.Core.Path.{subst}
use mathlib.Core.List.{map-append}
use rpiweatherd.CLib.Text.{Malloc, strdup_set}
use rpiweatherd.Data.Json.{Call}
use rpiweatherd.Data.Entries.{sizeof_entry}
use rpiweatherd.Database.Thread.{db_msg_no_sockfd, db_thread_message, request_write_entry}
use rpiweatherd.Database.Thread.Completes.{Sends, db_thread_message-Sends}
use rpiweatherd.Listener.Codes.{msgtype_writeentry}
use rpiweatherd.Listener.Message.{Message}
use rpiweatherd.Listener.Table.{Services, cmd_callback_table}
use rpiweatherd.Listener.Table.Keeps.{cmd_callback_table-KeepsAny}
use rpiweatherd.Listener.Worker.{Worker, Action, worker_round}
use rpiweatherd.System.{
  State, Turn, arrival, closed_by, to_workers, to_db, sent_back, accept_client, after_round, work,
  store, Step, accepts, measures, works, stores, Reach, here, next,
}
use rpiweatherd.System.Handled.{sockets, Settles, worker_round-Settles}

abbrev pub occurrences : ℤ → List ℤ → ℕ
occurrences x [] = 0
occurrences x (y ∷ ys) = let rest = occurrences x ys in if eq_ℤ x y then suc rest else rest

pub occurrences-append :
    (x : ℤ) (xs ys : List ℤ) → occurrences x (xs ++ ys) ≡ occurrences x xs + occurrences x ys
occurrences-append x [] ys = omega arith
occurrences-append x (y ∷ xs) ys = ground (arith, occurrences-append x xs ys)

module _ {F : Type 0} where
  -- How often a message of a queue is for a client.
  abbrev pub clients : ℕ → List (Message F) → ℕ
  clients n queue = occurrences (pos n) (sockets queue)

  pub clients-append :
      (n : ℕ) (xs ys : List (Message F)) → clients n (xs ++ ys) ≡ clients n xs + clients n ys
  clients-append n xs ys =
      ap (occurrences (pos n)) (map-append (λ m. m.sockfd) xs ys)
      ∙ occurrences-append (pos n) (sockets xs) (sockets ys)

  -- An entry to be written is for no client.
  abbrev pub NoClient : Message F → Type 0
  NoClient msg = (msg.mtype == msgtype_writeentry) ≡ true → msg.sockfd ≡ db_msg_no_sockfd

  -- Each accepted socket is in one place: closed, or in one message.
  pub record IsBalanced {Db : Type 0} (s : State F Db) : Type 0 where
    pub balance :
        (n : ℕ)
        → occurrences (pos n) s.accepted
          ≡ occurrences (pos n) s.closed + (clients n s.worker_queue + clients n s.db_queue)
    pub entries : All NoClient s.db_queue

  request_write_entry-NoClient :
      (malloc : Malloc) (stale : Message F) (stale_id : ℤ) (temp humid : F)
      (location device : Option Bytes)
      → Holds
          (λ msg. msg.sockfd ≡ db_msg_no_sockfd)
          (request_write_entry malloc stale stale_id temp humid location device)
  unfolding request_write_entry
  request_write_entry-NoClient malloc stale stale_id temp humid location device =
      Holds-if _ (malloc sizeof_entry) _ _
        (λ _.
          Holds-bind (λ msg. msg.sockfd ≡ db_msg_no_sockfd) (strdup_set malloc location) _
            λ _ _.
              Holds-bind (λ msg. msg.sockfd ≡ db_msg_no_sockfd) (strdup_set malloc device) _
                λ _ _. refl)
        λ _. tt

  -- The clients of a round's message are those of what it leaves.
  Settles-clients :
      (n : ℕ) (msg : Message F) (acts : List (Action F))
      → Settles msg acts
      → occurrences (pos n) (closed_by msg.sockfd acts)
          + (clients n (to_workers acts) + clients n (to_db acts))
        ≡ clients n (msg ∷ [])
  Settles-clients n msg acts settles =
      let placed = ap (occurrences (pos n)) settles.one_place in
      omega (
        arith,
        placed,
        occurrences-append (pos n) (closed_by msg.sockfd acts)
            (sockets (to_workers acts) ++ sockets (to_db acts)),
        occurrences-append (pos n) (sockets (to_workers acts)) (sockets (to_db acts)),
      )

  after_round-IsBalanced :
      {Db : Type 0} (thread : ℕ) (msg : Message F) (queue : List (Message F))
      (acts : List (Action F)) (w : Worker) (s : State F Db)
      → s.worker_queue ≡ msg ∷ queue
      → Settles msg acts
      → IsBalanced s
      → IsBalanced (after_round thread msg queue (acts, w) s)
  after_round-IsBalanced thread msg queue acts w s front settles b = record {
    balance = λ n. omega (
      arith,
      b.balance n,
      ap (clients n) front,
      clients-append n (msg ∷ []) queue,
      Settles-clients n msg acts settles,
      occurrences-append (pos n) (closed_by msg.sockfd acts) s.closed,
      clients-append n queue (to_workers acts),
      clients-append n s.db_queue (to_db acts),
    );
    entries = All-append NoClient s.db_queue (to_db acts) b.entries (
        All-map (λ m. (m.mtype == msgtype_writeentry) ≡ false) NoClient (to_db acts)
          (λ m other entry. cc) settles.queries);
  }

  sent_back-clients :
      (n : ℕ) (msg : Message F) (sent : Option (Message F))
      → NoClient msg
      → Sends msg sent
      → clients n (sent_back sent) ≡ clients n (msg ∷ [])
  sent_back-clients n msg none apart sends =
      let e : msg.sockfd ≡ db_msg_no_sockfd = apart (ground arith) in rw e refl
  sent_back-clients n msg (some msg') apart sends =
      ap (λ x. occurrences (pos n) (x ∷ [])) sends.same_socket

module _ {F : Type 0} (services : Services F) (serialize : List (Call F) → Option Bytes) where
  work-IsBalanced :
      (turn : Turn F) (msg : Message F) (queue : List (Message F)) (s : State F services.sql.Db)
      → s.worker_queue ≡ msg ∷ queue
      → IsBalanced s
      → Holds IsBalanced (work services serialize turn msg queue s)
  unfolding work
  work-IsBalanced turn msg queue s front b =
      Holds-bind IsBalanced
        (worker_round services.malloc (cmd_callback_table services s.db turn.moment) serialize
          (record { message = msg; input = turn.input; stale = turn.stale })
          (s.workers turn.thread))
        _
        λ (acts, w) e.
          after_round-IsBalanced turn.thread msg queue acts w s front
            (Holds-ret (λ result. Settles msg result.0) _
              (worker_round-Settles services.malloc (cmd_callback_table services s.db turn.moment)
                serialize _ (s.workers turn.thread)
                (cmd_callback_table-KeepsAny services s.db turn.moment))
              e)
            b

  store-IsBalanced :
      (msg : Message F) (queue : List (Message F)) (s : State F services.sql.Db)
      → s.db_queue ≡ msg ∷ queue
      → IsBalanced s
      → Holds IsBalanced (store services serialize msg queue s)
  unfolding store
  store-IsBalanced msg queue s front b =
      let apart : All NoClient (msg ∷ queue) = subst (All NoClient) front b.entries in
      Holds-bind IsBalanced
        (db_thread_message services.sql services.to_farenheit services.malloc s.db msg) _
        λ (db, sent) e. record {
          balance = λ n. omega (
            arith,
            b.balance n,
            ap (clients n) front,
            clients-append n (msg ∷ []) queue,
            sent_back-clients n msg sent apart.0 (
                db_thread_message-Sends services.sql services.to_farenheit services.malloc s.db msg
                  e),
            clients-append n s.worker_queue (sent_back sent),
          );
          entries = apart.1;
        }

  Step-IsBalanced :
      {s t : State F services.sql.Db} → Step services serialize s t → IsBalanced s → IsBalanced t
  unfolding accept_client
  Step-IsBalanced (accepts s socket stale) b = record {
    balance = λ n.
        ground (arith, b.balance n, clients-append n s.worker_queue (arrival socket stale ∷ []));
    entries = b.entries;
  }
  Step-IsBalanced (measures s stale stale_id temp humid msg e) b =
      let apart : msg.sockfd ≡ db_msg_no_sockfd =
        Holds-ret (λ msg. msg.sockfd ≡ db_msg_no_sockfd) _
          (request_write_entry-NoClient services.malloc stale stale_id temp humid
            services.config.measure_location services.config.device_name)
          e in
      record {
        balance = λ n.
            let alone : clients n (msg ∷ []) ≡ 0 = rw apart refl in
            omega (arith, b.balance n, clients-append n s.db_queue (msg ∷ []), alone);
        entries = All-append NoClient s.db_queue (msg ∷ []) b.entries ((λ _. apart), tt);
      }
  Step-IsBalanced (works s t turn msg queue front e) b =
      Holds-ret IsBalanced _ (work-IsBalanced turn msg queue s front b) e
  Step-IsBalanced (stores s t msg queue front e) b =
      Holds-ret IsBalanced _ (store-IsBalanced msg queue s front b) e

  -- In every state that the threads reach, whatever the requests, the commands, the data base and
  -- the order of the rounds are, each accepted socket is in one place: for each number of a socket,
  -- it has been accepted as often as it has been closed and as a message of the two queues is for
  -- it. An entry to be written is for no client.
  pub Reach-IsBalanced : {s : State F services.sql.Db} → Reach services serialize s → IsBalanced s
  Reach-IsBalanced (here db) = record { balance = λ n. refl; entries = tt }
  Reach-IsBalanced (next r step) = Step-IsBalanced step (Reach-IsBalanced r)
