-- ===== src/Tests/Daemon.antt =====
-- The configuration file and the start of the daemon on concrete values.
use rpiweatherd.Base.{
  neg, if◌then◌else◌, ◌==◌, ◌++◌, ℕ, ◌≡◌, refl, pos, true, false, none, some, [], ◌∷◌, List, Bytes,
  codes, str_eq, ret, fault, arith, Outcome,
}
use rpiweatherd.CLib.Text.{strdup}
use rpiweatherd.CLib.Decimal.{decimal_ℤ}
use rpiweatherd.Config.{Config, inih_callback, set_entry, config_has_errors, is_supported_device}
use rpiweatherd.Config.File.{IniParse, Line, write_config_file, parse_config_file}
use rpiweatherd.Config.File.RoundTrip.{deliver, parse_config_file-write_config_file}
use rpiweatherd.Daemon.Arguments.{Settings}
use rpiweatherd.Daemon.Start.{
  Daemon, Surroundings, running, path_of, start_services, start_device, start_triggers,
  start_daemon,
}
use rpiweatherd.Daemon.Loop.{Round, sighup, sigterm, Act, quit_routine, query_loop}
use rpiweatherd.Daemon.Loop.Ends.{Queries, query_loop-Ends}
use rpiweatherd.Daemon.Start.Checked.{IsChecked, start_daemon-IsChecked}
use rpiweatherd.Database.Start.{init_dbhandler, add_codes, sqlcmd_table_creation_queries}
use rpiweatherd.Device.Table.{
  supported_devices, select_device, device_init_by_name, current_driver, device_test_current,
  dht11_row, closing_row,
}
use rpiweatherd.Tests.Values.{all_fits, home, nat_floats, empty_triggers}
use rpiweatherd.Trigger.Load.{load_triggers, load_lines}

abbrev home_entries : List (Bytes × Bytes)
home_entries =
    (codes "measure_location", codes "home")
    ∷ (codes "query_interval", codes "1h")
    ∷ (codes "device_name", codes "dht11")
    ∷ (codes "device_config", codes "4")
    ∷ (codes "comm_port", codes "6005")
    ∷ (codes "num_worker_threads", codes "1")
    ∷ []

-- A parser of a file with these entries.
abbrev parse_home : IniParse
parse_home path handler st = (pos 0, deliver handler home_entries st)

abbrev unset : Config
unset = record {
  config_count = 0;
  measure_location = none;
  device_name = none;
  device_config = pos 0;
  query_interval = none;
  comm_port = pos 0;
  num_worker_threads = pos 0;
}

abbrev lines_of : Outcome (List Line) → List Line
lines_of (ret lines) = lines
lines_of (fault e) = []

parse_config_file-write_config_file_example :
    parse_config_file all_fits parse_home (codes "home.conf") unset false
    ≡ (pos 0, record home { config_count = 6 }, false)
unfolding write_config_file decimal_ℤ
parse_config_file-write_config_file_example =
    parse_config_file-write_config_file all_fits (λ n. refl) parse_home (codes "home.conf") home
      unset {lines = lines_of (write_config_file home)}
      (record {
        location = (_, _, refl);
        interval = (_, _, refl);
        device = (_, _, refl);
        config = omega arith;
        port = omega arith;
        threads = omega arith;
      })
      refl (λ handler st accepted. refl)

abbrev at_home : Surroundings ℕ
at_home = record {
  malloc = all_fits;
  floats = nat_floats;
  ini_parse = parse_home;
  trigger_file = some [];
  pid_file = false;
  levels = λ pin read. true;
  daemonizes = true;
  db_opened = true;
  exec = λ sqlcmd. 0;
  queue_opened = true;
}

abbrev before : Daemon ℕ
before = record {
  config = unset;
  triggers = empty_triggers;
  devices = record { table = supported_devices; selected = none };
}

abbrev no_options : Settings
no_options = record { config_path = none; run_in_foreground = false }

abbrev after : Daemon ℕ
after = record {
  config = record home { config_count = 6 };
  triggers = empty_triggers;
  devices = record { table = dht11_row 4 ∷ closing_row ∷ []; selected = some 0 };
}

started : start_daemon at_home no_options before ≡ ret (running after)
unfolding start_daemon path_of strdup parse_config_file config_has_errors is_supported_device
    start_triggers load_triggers load_lines start_device device_init_by_name select_device
    device_test_current current_driver start_services init_dbhandler add_codes
    sqlcmd_table_creation_queries inih_callback set_entry str_eq
started = refl

start_daemon-IsChecked_example : IsChecked at_home after
start_daemon-IsChecked_example = start_daemon-IsChecked at_home no_options before refl started

-- The third query succeeds; the loop is asked to reload and to terminate.
abbrev asked_twice : Round
asked_twice = record {
  retflags = λ n. if n == 2 then pos 0 else neg 2;
  calls = 64;
  millis = 1000;
  signals = sigterm ∷ sighup ∷ [];
}

abbrev quiet : Round
quiet = record asked_twice { signals = [] }

asked_twice-Queries : Queries asked_twice
asked_twice-Queries = record { named = λ i. ground arith; enough = omega arith }

quiet-Queries : Queries quiet
quiet-Queries = record { named = λ i. ground arith; enough = omega arith }

query_loop-Ends_example :
    (acts : List Act) × (query_loop
        (asked_twice ∷ quiet ∷ [])
        (record { hupsignal = false; termsignal = false })
      ≡ some (acts ++ (quit_routine ∷ []), true))
query_loop-Ends_example =
    query_loop-Ends asked_twice quiet [] (record { hupsignal = false; termsignal = false })
      asked_twice-Queries quiet-Queries refl refl
