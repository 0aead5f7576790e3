-- ===== src/Database/Thread/Completes.antt =====
-- What the thread of the data base makes of a message.
use rpiweatherd.Base.{
  ℤ, ◌≡◌, refl, true, Option, none, some, ◌==◌, ret, Holds, Holds-bind, Holds-if, Holds-ret, arith,
}
use rpiweatherd.CLib.Text.{Malloc}
use rpiweatherd.Data.KeyValues.{KeyValueList}
use rpiweatherd.Database.Sqlite.{Sqlite}
use rpiweatherd.Database.Fetch.{exec_fetch_query}
use rpiweatherd.Database.Thread.{
  pairs_of, add_pairs, is_celsius, write_entry, fetch_entries, add_stats, db_thread_message,
}
use rpiweatherd.Listener.Codes.{msgtype_writeentry, msgtype_fetch, msgtype_stats}
use rpiweatherd.Listener.Message.{Message, Payload, nothing, one_entry, entry_list, key_values}

module _ {F : Type 0} where
  -- The answer to a message is the message, completed, for the same client.
  pub record Answers (msg msg' : Message F) : Type 0 where
    pub same_socket : msg'.sockfd ≡ msg.sockfd
    pub same_type : msg'.mtype ≡ msg.mtype
    pub same_unit : msg'.unitstr ≡ msg.unitstr
    pub completed : msg'.is_completed ≡ true

  -- Nothing is sent back for an entry that is written; everything else is answered.
  abbrev pub Sends : Message F → Option (Message F) → Type 0
  Sends msg none = msg.mtype ≡ msgtype_writeentry
  Sends msg (some msg') = Answers msg msg'

module _ {F : Type 0} (sql : Sqlite F) (to_farenheit : F → F) (malloc : Malloc) where
  write_entry-Sends :
      (db : sql.Db) (msg : Message F) (payload : Payload F)
      → msg.mtype ≡ msgtype_writeentry
      → Holds (λ r. Sends msg r.1) (write_entry sql to_farenheit malloc db payload)
  unfolding write_entry
  write_entry-Sends db msg nothing w = tt
  write_entry-Sends db msg (one_entry e) w = w
  write_entry-Sends db msg (entry_list l) w = tt
  write_entry-Sends db msg (key_values l) w = tt

  fetch_entries-Sends :
      (db : sql.Db) (msg : Message F)
      → Holds (λ r. Sends msg r.1) (fetch_entries sql to_farenheit malloc db msg)
  unfolding fetch_entries
  fetch_entries-Sends db msg =
      Holds-bind (λ r. Sends msg r.1) (is_celsius sql to_farenheit malloc msg) _
        λ keep _.
          Holds-bind (λ r. Sends msg r.1)
            (exec_fetch_query sql to_farenheit malloc db msg.fcountq msg.fselectq keep msg.retcode)
            _
            λ result _. record {
              same_socket = refl;
              same_type = refl;
              same_unit = refl;
              completed = refl;
            }

  add_stats-Sends :
      (db : sql.Db) (msg : Message F) (stats : Option KeyValueList × ℤ)
      → Holds (λ r. Sends msg r.1) (add_stats sql to_farenheit malloc db msg stats)
  unfolding add_stats
  add_stats-Sends db msg (none, retcode) = tt
  add_stats-Sends db msg (some list, retcode) =
      Holds-bind (λ r. Sends msg r.1) (add_pairs malloc (pairs_of list.pairs) msg.payload) _
        λ payload _. record {
          same_socket = refl;
          same_type = refl;
          same_unit = refl;
          completed = refl;
        }

  -- Where the thread of the data base is done with a message, it has sent nothing back if an entry
  -- was written; to every other message it has sent the completed message back, with its client's
  -- socket, its type and its units.
  pub db_thread_message-Sends :
      (db : sql.Db) (msg : Message F) {db' : sql.Db} {sent : Option (Message F)}
      → db_thread_message sql to_farenheit malloc db msg ≡ ret (db', sent)
      → Sends msg sent
  unfolding db_thread_message
  db_thread_message-Sends db msg h =
      Holds-ret (λ r. Sends msg r.1) (db_thread_message sql to_farenheit malloc db msg)
        (Holds-if _ (msg.mtype == msgtype_writeentry) _ _
          (λ w. write_entry-Sends db msg msg.payload (ground arith))
          λ _.
            Holds-if _ (msg.mtype == msgtype_fetch) _ _ (λ _. fetch_entries-Sends db msg)
              λ _.
                Holds-if _ (msg.mtype == msgtype_stats) _ _ (λ _. add_stats-Sends db msg _)
                  λ _. record {
                    same_socket = refl;
                    same_type = refl;
                    same_unit = refl;
                    completed = refl;
                  })
        h
