-- ===== src/Tests/Requests.antt =====
-- The fetch command and the workers on concrete requests.
use rpiweatherd.Base.{
  neg, ◌+◌, ◌*◌, ◌<◌, some, take, map, ℕ, ◌≡◌, refl, pos, true, false, none, some, List, [], ◌∷◌,
  Bytes, codes, str_eq, ret,
}
use rpiweatherd.Tests.Values.{
  no_params, third_measurement, all_fits, home, nat_count, noon, arrived, select_five,
}
use rpiweatherd.CLib.Decimal.{strtol}
use rpiweatherd.Listener.Codes.{success, msgtype_fetch, msgtype_current, msgtype_config}
use rpiweatherd.Listener.Message.{Message, one_entry, key_values}
use rpiweatherd.CLib.Text.{strdup_set, strdup}
use rpiweatherd.Http.Params.{HttpCmd}
use rpiweatherd.Data.KeyValues.{KeyValueList}
use rpiweatherd.Data.KeyValues.Bounds.{IsValid, emplaced}
use rpiweatherd.Listener.Current.{
  current_command_callback, check_params, answer_current, query_current, fill_entry, in_unit,
}
use rpiweatherd.Listener.Current.Measured.{Asks, Measures, current_command_callback-Measures}
use rpiweatherd.Listener.ConfigCommand.{config_command_callback, config_pairs}
use rpiweatherd.Listener.ConfigCommand.Pairs.{config_command_callback-pairs}
use rpiweatherd.Listener.Queries.{count_select_n, select_n}
use rpiweatherd.Listener.Fetch.{
  Range, set_select, fetch_named, fetch_param, next_param, fetch_params, fetch_queries,
  finish_fetch, end_loop, start, fetch_command_callback,
}
use rpiweatherd.Listener.Fetch.Between.{date_param}
use rpiweatherd.Listener.Table.{Callback}
use rpiweatherd.Listener.Worker.{
  Worker, Round, end_of_file, close, fresh_worker, read_and_parse_response, answer_request,
  worker_round,
}
use rpiweatherd.Listener.Worker.Actions.{IsOrderly, worker_round-IsOrderly}
use rpiweatherd.Listener.Worker.EndOfFile.{worker_round-end_of_file}

abbrev five_rows : Message ℕ
five_rows = record arrived {
  mtype = msgtype_fetch;
  fcountq = some (count_select_n (pos 5));
  fselectq = some (select_n (pos 5));
}

fetch_five :
    fetch_command_callback nat_count noon false select_five arrived ≡ ret (success, five_rows)
unfolding fetch_command_callback fetch_params fetch_param fetch_named next_param set_select strtol
    fetch_queries finish_fetch end_loop str_eq
fetch_five = refl

abbrev last_two_days : HttpCmd
last_two_days = record {
  cmdname = codes "fetch";
  length = 2;
  params = date_param (codes "to") (codes "now") ∷ date_param (codes "from") (codes "2d") ∷ [];
}

abbrev five : Range
five = record (start nat_count noon false arrived) { select = pos 5 }

abbrev no_table : List (Bytes × Callback ℕ)
no_table = []

abbrev hung_up : Round ℕ
hung_up = record { message = arrived; input = end_of_file; stale = [] }

abbrev after_hang_up : Worker
after_hang_up = record fresh_worker { is_eof = true }

read_hung_up :
    read_and_parse_response all_fits hung_up.stale hung_up.input after_hang_up
    ≡ ret (none, after_hang_up)
unfolding read_and_parse_response
read_hung_up = refl

round_hung_up :
    worker_round all_fits no_table (λ calls. none) hung_up fresh_worker
    ≡ ret (close ∷ [], after_hang_up)
unfolding worker_round read_and_parse_response answer_request
round_hung_up = refl

worker_round-IsOrderly_example : IsOrderly {F = ℕ} (close ∷ [])
worker_round-IsOrderly_example =
    worker_round-IsOrderly all_fits no_table (λ calls. none) hung_up fresh_worker round_hung_up

worker_round-end_of_file_example :
    (worker_round all_fits no_table (λ calls. none) hung_up after_hang_up
      ≡ ret (close ∷ [], after_hang_up))
    × (after_hang_up.is_eof ≡ true)
worker_round-end_of_file_example =
    worker_round-end_of_file all_fits no_table (λ calls. none) hung_up after_hang_up after_hang_up
      refl refl read_hung_up

abbrev measured : Message ℕ
measured = record arrived {
  mtype = msgtype_current;
  is_completed = true;
  payload = one_entry (record {
    id = neg 1;
    record_date = none;
    temperature = 76;
    humidity = 55;
    location = some (codes "home");
    device_name = some (codes "dht11");
  });
}

current_measured :
    current_command_callback (λ t. t * 2 + 32) third_measurement all_fits home no_params arrived
    ≡ ret (success, measured)
unfolding current_command_callback check_params answer_current query_current fill_entry in_unit
    strdup_set strdup
current_measured = refl

current_command_callback-Measures_example :
    (n : ℕ) × ((third_measurement n).0 ≡ pos 0)
    × (n < 64)
    × Measures (λ t. t * 2 + 32) third_measurement measured n
    × Asks no_params arrived.unitstr measured.unitstr
current_command_callback-Measures_example =
    current_command_callback-Measures (λ t. t * 2 + 32) third_measurement all_fits home no_params
      arrived current_measured

config_command_callback-pairs_example :
    (list : KeyValueList) × (config_command_callback all_fits home no_params arrived
      ≡ ret (
        success,
        record arrived { payload = key_values list; mtype = msgtype_config; is_completed = true },
      ))
    × (list.pairs ≡ take 2 (map (emplaced all_fits) (config_pairs home)))
    × IsValid list
config_command_callback-pairs_example =
    config_command_callback-pairs all_fits home no_params arrived (λ n. refl)
