-- ===== src/Tests/Answers.antt =====
-- Requests on their way through the threads, the start of the workers, and replies, on concrete
-- values.
use rpiweatherd.Base.{
  ℕ, ◌≡◌, refl, pos, true, false, some, List, [], ◌∷◌, ◌++◌, Bytes, Option, codes, All, ret, arith,
}
use rpiweatherd.Data.Json.{Call}
use rpiweatherd.Database.Sqlite.{dbhandler_too_many_entries, dbhandler_strerror}
use rpiweatherd.Listener.Codes.{msgtype_fetch}
use rpiweatherd.Listener.Message.{Message}
use rpiweatherd.Listener.Replies.{Sender}
use rpiweatherd.Listener.Replies.Written.{IsWritten, worker_round-IsWritten}
use rpiweatherd.Listener.Start.{
  Threads, created, finished, at_malloc, listening, overflowed, Reach, here, next, creates,
  unstarted,
}
use rpiweatherd.Listener.Start.Race.{IsSteady, Reach-IsSteady, Reach-races}
use rpiweatherd.Listener.Table.{Services, Moment}
use rpiweatherd.Listener.Worker.{
  Action, end_of_file, close, fresh_worker, worker_round, message_json, answer_completed,
  send_error,
}
use rpiweatherd.Tests.Store.{two_stored, farenheit, raspberry}
use rpiweatherd.Tests.Values.{all_fits, home, nat_count, noon, arrived, third_measurement}

abbrev daemon_services : Services ℕ
daemon_services = record {
  sql = two_stored;
  count = nat_count;
  to_farenheit = farenheit;
  malloc = all_fits;
  config = home;
}

abbrev at_noon : Moment ℕ
at_noon = record { calendar = noon; erange = false; queries = third_measurement; host = raspberry }

abbrev as_object : List (Call ℕ) → Option Bytes
as_object calls = some (codes "{}")

-- The listener's thread waits for its memory.
abbrev waiting : Threads
waiting = record { num_workers = 2; starter = created; phase = at_malloc }

Reach-IsSteady_example : IsSteady 2 waiting
Reach-IsSteady_example = Reach-IsSteady 2 (next here (creates (unstarted 2) refl))

Reach-races_example :
    (s t : Threads) × Reach 2 (unstarted 0) s
    × (s.phase ≡ overflowed)
    × Reach 2 (unstarted 0) t
    × (t ≡ record { num_workers = 2; starter = finished; phase = listening (pos 3) 0 })
Reach-races_example = Reach-races 2 (pos 3) (omega arith)

abbrev pi_sender : Sender ℕ
pi_sender = record {
  malloc = all_fits;
  server_id = codes "rpiweatherd/1.1";
  ctime = codes "Sun Jan  1 00:00:00 2017" ++ (10 ∷ []);
  serialize = as_object;
}

-- A fetch that the data base refused.
abbrev refused : Message ℕ
refused = record arrived {
  mtype = msgtype_fetch;
  is_completed = true;
  retcode = dbhandler_too_many_entries;
}

abbrev refused_acts : List (Action ℕ)
refused_acts =
    send_error 400 dbhandler_too_many_entries (dbhandler_strerror dbhandler_too_many_entries)
    ∷ close
    ∷ []

refused_round :
    worker_round all_fits [] as_object
      (record { message = refused; input = end_of_file; stale = [] })
      fresh_worker
    ≡ ret (refused_acts, fresh_worker)
unfolding worker_round message_json answer_completed
refused_round = refl

abbrev new_year : Bytes
new_year = codes "un Jan  1 00:00:00 2017" ++ (10 ∷ [])

worker_round-IsWritten_example : All (IsWritten pi_sender b'S' new_year) refused_acts
worker_round-IsWritten_example =
    worker_round-IsWritten pi_sender all_fits []
      (record { message = refused; input = end_of_file; stale = [] }) fresh_worker b'S' new_year
      (record {
        memory = λ n. refl;
        date = refl;
        date_short = omega arith;
        name_short = omega arith;
        small = λ calls. omega arith;
      })
      refused_round
