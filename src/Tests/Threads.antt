-- ===== src/Tests/Threads.antt =====
-- The threads together on a concrete client.
use rpiweatherd.Base.{
  ◌+◌, ◌≤◌, ℕ, ◌≡◌, ◌≢◌, refl, true, false, some, List, [], ◌∷◌, ◌++◌, Bytes, Option, codes,
  Outcome, ret, fault, uninitialised,
}
use rpiweatherd.Tests.Values.{all_fits, home, nat_count, noon, arrived, third_measurement}
use rpiweatherd.Data.Json.{Call}
use rpiweatherd.Data.KeyValues.{key_value_list_alloc, emplace_all}
use rpiweatherd.Listener.Codes.{msgtype_config}
use rpiweatherd.Listener.Message.{Message, key_values, rpiwd_mqmsg_init}
use rpiweatherd.CLib.Text.{strdup}
use rpiweatherd.Util.Lines.{rpiwd_getline}
use rpiweatherd.Http.Parser.{
  parse_http_request, parse_line, build_command, parse_params, count_ampersands, reject_duplicates,
}
use rpiweatherd.Http.Params.{parse_http_param, check_duplicates}
use rpiweatherd.Http.Request.{break_request}
use rpiweatherd.Listener.ConfigCommand.{config_pairs, config_command_callback}
use rpiweatherd.Listener.Table.{Services, cmd_callback_table}
use rpiweatherd.Listener.Table.Types.{fits}
use rpiweatherd.Listener.Worker.{
  received, message_json, worker_round, read_and_parse_response, c_string, answer_request,
  dispatch_command, after_dispatch,
}
use rpiweatherd.System.{
  State, Turn, arrival, work, works, accept_client, accepts, initial, Reach, here, next,
}
use rpiweatherd.System.Conservation.{IsBalanced, Reach-IsBalanced}
use rpiweatherd.System.Draining.{rounds_left, works_first, done, Rounds-bounded}
use rpiweatherd.System.Types.Reads.{Reach-Sound}
use rpiweatherd.Tests.Store.{two_stored, farenheit, raspberry}

abbrev services : Services ℕ
services = record {
  sql = two_stored;
  count = nat_count;
  to_farenheit = farenheit;
  malloc = all_fits;
  config = home;
}

abbrev serialized : List (Call ℕ) → Option Bytes
serialized calls = some (codes "{}")

abbrev turns : ℕ → Turn ℕ
turns i = record {
  thread = i;
  moment = record {
    calendar = noon;
    erange = false;
    queries = third_measurement;
    host = raspberry;
  };
  input = received (codes "GET /statistics HTTP/1.1" ++ (13 ∷ 10 ∷ []));
  stale = [];
}

abbrev one_client : State ℕ ℕ
one_client = accept_client 7 arrived (initial services serialized 0)

reached : Reach services serialized one_client
reached = next (here 0) (accepts (initial services serialized 0) 7 arrived)

Reach-IsBalanced_example : IsBalanced one_client
Reach-IsBalanced_example = Reach-IsBalanced services serialized reached

abbrev config_turn : Turn ℕ
config_turn = record (turns 0) { input = received (codes "GET /config HTTP/1.1" ++ (13 ∷ 10 ∷ [])) }

abbrev state_of : Outcome (State ℕ ℕ) → State ℕ ℕ
state_of (ret s) = s
state_of (fault e) = one_client

-- Behind the round that takes the request for the configuration.
abbrev config_asked : State ℕ ℕ
config_asked = state_of (work services serialized config_turn (arrival 7 arrived) [] one_client)

abbrev config_message : Message ℕ
config_message = record (arrival 7 arrived) {
  mtype = msgtype_config;
  is_completed = true;
  payload =
      key_values (
        emplace_all all_fits (config_pairs home) (record { length = 0; capacity = 2; pairs = [] }));
}

config_round :
    work services serialized config_turn (arrival 7 arrived) [] one_client ≡ ret config_asked
unfolding work worker_round rpiwd_mqmsg_init read_and_parse_response c_string parse_http_request
    rpiwd_getline parse_line break_request build_command strdup parse_params count_ampersands
    parse_http_param reject_duplicates check_duplicates answer_request dispatch_command
    cmd_callback_table after_dispatch config_command_callback key_value_list_alloc
config_round = refl

config_front : config_asked.worker_queue ≡ config_message ∷ []
unfolding work worker_round rpiwd_mqmsg_init read_and_parse_response c_string parse_http_request
    rpiwd_getline parse_line break_request build_command strdup parse_params count_ampersands
    parse_http_param reject_duplicates check_duplicates answer_request dispatch_command
    cmd_callback_table after_dispatch config_command_callback key_value_list_alloc
config_front = refl

queue_of_one : one_client.worker_queue ≡ arrival 7 arrived ∷ []
unfolding accept_client
queue_of_one = refl

Rounds-bounded_example : 1 + rounds_left config_asked ≤ rounds_left one_client
Rounds-bounded_example = Rounds-bounded services serialized (
    works_first one_client config_asked config_asked 0 config_turn (arrival 7 arrived) []
      queue_of_one config_round (done config_asked))

Reach-Sound_example :
    (fits msgtype_config config_message.payload ≡ true)
    × (message_json false config_message ≢ fault uninitialised)
Reach-Sound_example =
    Reach-Sound services serialized false config_message []
      (next reached (
        works one_client config_asked config_turn (arrival 7 arrived) [] queue_of_one config_round))
      config_front refl
