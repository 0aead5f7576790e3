-- ===== src/System/Types/Steps.antt =====
-- A step of any thread keeps the types of what the queues hold.
use rpiweatherd.Base.{
  All, All-append, ℕ, ◌≡◌, refl, ℤ, true, Option, none, some, List, [], ◌∷◌, ◌==◌, Bytes, Holds,
  Holds-bind, Holds-if, Holds-ret, arith,
}
use mathlib.Core.Path.{subst}
use rpiweatherd.Data.Entries.{EntryList}
use rpiweatherd.Data.Json.{Call}
use rpiweatherd.Database.Thread.{
  db_thread_message, write_entry, fetch_entries, fetched, add_stats, add_pairs, pairs_of,
  is_celsius,
}
use rpiweatherd.Database.Fetch.{exec_fetch_query}
use rpiweatherd.Data.KeyValues.{KeyValueList}
use rpiweatherd.Listener.Codes.{msgtype_writeentry, msgtype_fetch, msgtype_stats}
use rpiweatherd.Listener.Message.{
  Message, Payload, nothing, one_entry, entry_list, key_values, rpiwd_mqmsg_init,
}
use rpiweatherd.Listener.Table.{Services, cmd_callback_table}
use rpiweatherd.Listener.Table.Types.{fits, cmd_callback_table-TypesAny}
use rpiweatherd.Listener.Worker.{Round, worker_round}
use rpiweatherd.System.{
  State, Turn, arrival, to_workers, to_db, sent_back, accept_client, work, store, Step, accepts,
  measures, works, stores,
}
use rpiweatherd.System.Types.{
  Readable, Storable, IsTyped, Puts, worker_round-Puts, request_write_entry-Storable,
}

module _ {F : Type 0} (services : Services F) (serialize : List (Call F) → Option Bytes) where
  abbrev Answered : services.sql.Db × Option (Message F) → Type 0
  Answered r = All Readable (sent_back r.1)

  write_entry-Answered :
      (db : services.sql.Db) (payload : _)
      → Holds Answered (write_entry services.sql services.to_farenheit services.malloc db payload)
  unfolding write_entry
  write_entry-Answered db nothing = tt
  write_entry-Answered db (one_entry e) = tt
  write_entry-Answered db (entry_list l) = tt
  write_entry-Answered db (key_values l) = tt

  fetched-fits :
      (mtype : ℕ) (list : Option (EntryList F))
      → (mtype == msgtype_fetch) ≡ true
      → fits mtype (fetched list) ≡ true
  fetched-fits mtype none e = refl
  fetched-fits mtype (some list) e = e

  add_pairs-fits :
      (mtype : ℕ) (pairs : List (Option Bytes × Option Bytes)) (payload : Payload F)
      → fits mtype payload ≡ true
      → Holds (λ payload'. fits mtype payload' ≡ true) (add_pairs services.malloc pairs payload)
  unfolding add_pairs
  add_pairs-fits mtype pairs (key_values list) e = e
  add_pairs-fits mtype [] nothing e = e
  add_pairs-fits mtype [] (one_entry x) e = e
  add_pairs-fits mtype [] (entry_list x) e = e
  add_pairs-fits mtype (p ∷ pairs) nothing e = tt
  add_pairs-fits mtype (p ∷ pairs) (one_entry x) e = tt
  add_pairs-fits mtype (p ∷ pairs) (entry_list x) e = tt

  add_stats-Answered :
      (db : services.sql.Db) (msg : Message F) (stats : Option KeyValueList × ℤ)
      → fits msg.mtype msg.payload ≡ true
      → Holds Answered (add_stats services.sql services.to_farenheit services.malloc db msg stats)
  unfolding add_stats
  add_stats-Answered db msg (none, retcode) e = tt
  add_stats-Answered db msg (some list, retcode) e =
      Holds-bind Answered (add_pairs services.malloc (pairs_of list.pairs) msg.payload) _
        λ payload found. (
          (λ _.
              Holds-ret (λ p. fits msg.mtype p ≡ true)
                (add_pairs services.malloc (pairs_of list.pairs) msg.payload)
                (add_pairs-fits msg.mtype (pairs_of list.pairs) msg.payload e) found),
          tt,
        )

  db_thread_message-Answered :
      (db : services.sql.Db) (msg : Message F)
      → Storable msg
      → Holds Answered (db_thread_message services.sql services.to_farenheit services.malloc db msg)
  unfolding db_thread_message fetch_entries
  db_thread_message-Answered db msg h =
      Holds-if _ (msg.mtype == msgtype_writeentry) _ _ (λ _. write_entry-Answered db msg.payload)
        λ _.
          Holds-if _ (msg.mtype == msgtype_fetch) _ _
            (λ fetches.
              Holds-bind Answered
                (is_celsius services.sql services.to_farenheit services.malloc msg) _
                λ keep _.
                  Holds-bind Answered
                    (exec_fetch_query services.sql services.to_farenheit services.malloc db
                      msg.fcountq msg.fselectq keep msg.retcode)
                    _ λ (list, retcode) _. ((λ _. fetched-fits msg.mtype list fetches), tt))
            λ other.
              Holds-if _ (msg.mtype == msgtype_stats) _ _
                (λ _. add_stats-Answered db msg _ (ground arith)) λ _. ((λ _. ground arith), tt)

  work-IsTyped :
      (turn : Turn F) (msg : Message F) (queue : List (Message F)) (s : State F services.sql.Db)
      → All Readable queue
      → All Storable s.db_queue
      → Holds IsTyped (work services serialize turn msg queue s)
  unfolding work
  work-IsTyped turn msg queue s readable storable =
      let table = cmd_callback_table services s.db turn.moment in
      let r : Round F = record { message = msg; input = turn.input; stale = turn.stale } in
      Holds-bind IsTyped (worker_round services.malloc table serialize r (s.workers turn.thread)) _
        λ (acts, w) e.
          let puts =
            Holds-ret (λ result. Puts result.0)
              (worker_round services.malloc table serialize r (s.workers turn.thread))
              (worker_round-Puts services.malloc table serialize r (s.workers turn.thread)
                (cmd_callback_table-TypesAny services s.db turn.moment))
              e in
          record {
            readable = All-append Readable queue (to_workers acts) readable puts.readable;
            storable = All-append Storable s.db_queue (to_db acts) storable puts.storable;
          }

  store-IsTyped :
      (msg : Message F) (queue : List (Message F)) (s : State F services.sql.Db)
      → All Readable s.worker_queue
      → All Storable (msg ∷ queue)
      → Holds IsTyped (store services serialize msg queue s)
  unfolding store
  store-IsTyped msg queue s readable storable =
      Holds-bind IsTyped
        (db_thread_message services.sql services.to_farenheit services.malloc s.db msg) _
        λ (db, sent) e. record {
          readable =
              All-append Readable s.worker_queue (sent_back sent) readable
                (Holds-ret Answered _ (db_thread_message-Answered s.db msg storable.0) e);
          storable = storable.1;
        }

  pub Step-IsTyped :
      {s t : State F services.sql.Db} → Step services serialize s t → IsTyped s → IsTyped t
  unfolding accept_client rpiwd_mqmsg_init
  Step-IsTyped (accepts s socket stale) b = record {
    readable =
        All-append Readable s.worker_queue (arrival socket stale ∷ []) b.readable ((λ h. cc), tt);
    storable = b.storable;
  }
  Step-IsTyped (measures s stale stale_id temp humid msg e) b = record {
    readable = b.readable;
    storable = All-append Storable s.db_queue (msg ∷ []) b.storable (
      Holds-ret Storable _
          (request_write_entry-Storable services.malloc stale stale_id temp humid
            services.config.measure_location services.config.device_name)
          e,
      tt,
    );
  }
  Step-IsTyped (works s t turn msg queue front e) b =
      let rest = subst (All Readable) front b.readable in
      Holds-ret IsTyped _ (work-IsTyped turn msg queue s rest.1 b.storable) e
  Step-IsTyped (stores s t msg queue front e) b =
      let rest = subst (All Storable) front b.storable in
      Holds-ret IsTyped _ (store-IsTyped msg queue s b.readable rest) e
