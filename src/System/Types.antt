-- ===== src/System/Types.antt =====
-- `void *data` is read as what it is.
pub mod Steps
pub mod Reads
use rpiweatherd.Base.{
  All, All-append, All-map, ℕ, ◌≡◌, ◌≢◌, refl, ap, ◌∙◌, ℤ, pos, Bool, true, false, not, ◌||◌,
  Option, none, some, List, [], ◌∷◌, ◌++◌, ◌==◌, map, if◌then◌else◌, Bytes, codes, str_eq, eq_ℤ,
  eq_ℤ_iff, Outcome, ret, fault, uninitialised, Holds, Holds-bind, Holds-if, Holds-intro, Holds-ret,
  arith,
}
use mathlib.Core.Path.{subst}
use rpiweatherd.CLib.Text.{Malloc, strdup_set}
use rpiweatherd.Data.Entries.{sizeof_entry, EntryList}
use rpiweatherd.Data.Json.{Call}
use rpiweatherd.Database.Thread.{
  request_write_entry, db_thread_message, write_entry, fetch_entries, fetched, add_stats, add_pairs,
  pairs_of, is_celsius,
}
use rpiweatherd.Database.Fetch.{exec_fetch_query}
use rpiweatherd.Data.KeyValues.{KeyValueList}
use rpiweatherd.Http.Params.{HttpCmd}
use rpiweatherd.Listener.Codes.{success, msgtype_writeentry, msgtype_fetch, msgtype_stats}
use rpiweatherd.Listener.Message.{
  Message, Payload, nothing, one_entry, entry_list, key_values, rpiwd_mqmsg_init,
}
use rpiweatherd.Listener.Table.{Callback, Services, cmd_callback_table}
use rpiweatherd.Listener.Table.Types.{fits, fits_or_fetches, TypesAny, cmd_callback_table-TypesAny}
use rpiweatherd.Listener.Worker.{
  Worker, Round, Action, dispatch_command, after_dispatch, answer_request, read_and_parse_response,
  message_json, answer_completed, worker_round,
}
use rpiweatherd.System.{
  State, Turn, arrival, to_workers, to_db, sent_back, accept_client, after_round, work, store, Step,
  accepts, measures, works, stores, Reach, here, next,
}

module _ {F : Type 0} where
  -- Of what is put into the queue of the workers, and into that of the data base.
  abbrev pub Readable : Message F → Type 0
  Readable msg = msg.is_completed ≡ true → fits msg.mtype msg.payload ≡ true

  abbrev pub Storable : Message F → Type 0
  Storable msg = fits_or_fetches msg ≡ true

  pub record IsTyped {Db : Type 0} (s : State F Db) : Type 0 where
    pub readable : All Readable s.worker_queue
    pub storable : All Storable s.db_queue

  -- What the actions of a round put into the queues.
  pub record Puts (acts : List (Action F)) : Type 0 where
    pub readable : All Readable (to_workers acts)
    pub storable : All Storable (to_db acts)

  dispatch_command-types :
      (table : List (Bytes × Callback F)) (cmd : HttpCmd) (msg : Message F)
      → All (λ row. TypesAny row.1) table
      → Holds (λ r. r.0 ≡ success → fits_or_fetches r.1 ≡ true) (dispatch_command table cmd msg)
  unfolding dispatch_command
  dispatch_command-types [] cmd msg h = λ ok. cc
  dispatch_command-types ((name, callback) ∷ rows) cmd msg h =
      Holds-if _ (str_eq name cmd.cmdname) _ _
        (λ _.
          Holds-intro (λ r. r.0 ≡ success → fits_or_fetches r.1 ≡ true) (callback cmd msg)
            λ r e ok. h.0 cmd msg r.1 (e ∙ ap (λ c. ret (c, r.1)) ok))
        λ _. dispatch_command-types rows cmd msg h.1

  after_dispatch-Puts :
      (r : ℤ × Message F) → (r.0 ≡ success → fits_or_fetches r.1 ≡ true) → Puts (after_dispatch r)
  unfolding after_dispatch
  after_dispatch-Puts (code, msg) h = record {
    readable = ground (arith, eq_ℤ_iff code success);
    storable = ground (arith, eq_ℤ_iff code success);
  }

  answer_request-Puts :
      (table : List (Bytes × Callback F)) (msg : Message F) (request : Option HttpCmd × Worker)
      → All (λ row. TypesAny row.1) table
      → Holds (λ r. Puts r.0) (answer_request table msg request)
  unfolding answer_request
  answer_request-Puts table msg (none, w) types = record {
    readable = ground arith;
    storable = ground arith;
  }
  answer_request-Puts table msg (some cmd, w) types =
      Holds-if _
        (str_eq cmd.cmdname (codes "favicon.ico") || str_eq cmd.cmdname (codes "text-html")) _ _
        (λ _. record { readable = tt; storable = tt })
        λ _.
          Holds-bind (λ r. Puts r.0) (dispatch_command table cmd msg) _
            λ r e. after_dispatch-Puts r (
              Holds-ret (λ r. r.0 ≡ success → fits_or_fetches r.1 ≡ true)
                (dispatch_command table cmd msg) (dispatch_command-types table cmd msg types) e)

  answer_completed-Puts :
      (serialize : List (Call F) → Option Bytes) (msg : Message F) (w : Worker)
      (jval : Option (List (Call F)))
      → Puts (answer_completed serialize msg w jval).0
  unfolding answer_completed
  answer_completed-Puts serialize msg w none = record { readable = tt; storable = tt }
  answer_completed-Puts serialize msg w (some calls) = record { readable = tt; storable = tt }

  pub worker_round-Puts :
      (malloc : Malloc) (table : List (Bytes × Callback F))
      (serialize : List (Call F) → Option Bytes) (r : Round F) (w : Worker)
      → All (λ row. TypesAny row.1) table
      → Holds (λ result. Puts result.0) (worker_round malloc table serialize r w)
  unfolding worker_round
  worker_round-Puts malloc table serialize r w types =
      Holds-if _ (not r.message.is_completed) _ _
        (λ _.
          Holds-bind (λ result. Puts result.0) (read_and_parse_response malloc r.stale r.input w) _
            λ request _. answer_request-Puts table r.message request types)
        λ _.
          Holds-bind (λ result. Puts result.0) (message_json w.jval_freed r.message) _
            λ jval _. answer_completed-Puts serialize r.message w jval

  pub request_write_entry-Storable :
      (malloc : Malloc) (stale : Message F) (stale_id : ℤ) (temp humid : F)
      (location device : Option Bytes)
      → Holds Storable (request_write_entry malloc stale stale_id temp humid location device)
  unfolding request_write_entry
  request_write_entry-Storable malloc stale stale_id temp humid location device =
      Holds-if _ (malloc sizeof_entry) _ _
        (λ _.
          Holds-bind Storable (strdup_set malloc location) _
            λ _ _. Holds-bind Storable (strdup_set malloc device) _ λ _ _. refl)
        λ _. tt
