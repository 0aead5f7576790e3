-- ===== src/Tests/Values.antt =====
-- Concrete values for what the definitions take as parameters. Natural numbers stand for the
-- floats.
use rpiweatherd.Base.{
  ℤ, neg, if◌then◌else◌, ℕ, ◌*◌, ◌+◌, pos, true, false, none, some, [], ◌∷◌, ◌==◌, ltb, leb, codes,
  replicate,
}
use rpiweatherd.CLib.Text.{Malloc, read_digits}
use rpiweatherd.CLib.Decimal.{decimal}
use rpiweatherd.Util.Units.{Count}
use rpiweatherd.Util.Dates.{Calendar}
use rpiweatherd.Trigger.Floats.{Floats}
use rpiweatherd.Trigger.Parse.{Trigger, live, null}
use rpiweatherd.Trigger.Load.{Triggers}
use rpiweatherd.Config.{Config}
use rpiweatherd.Http.Params.{HttpCmd}
use rpiweatherd.Listener.Message.{Message, nothing, default_unitstr}

abbrev pub all_fits : Malloc
all_fits n = true

abbrev pub nat_count : Count ℕ
nat_count = record {
  strtof = read_digits 0;
  erange = λ s. false;
  is_zero = λ n. n == 0;
  millis = λ seconds n. seconds * (n * 1000);
}

abbrev pub nat_floats : Floats ℕ
nat_floats = record {
  strtod = read_digits 0;
  strtod_end = λ s. 2;
  strtod_erange = λ s. false;
  is_zero = λ n. n == 0;
  eq = λ a b. a == b;
  lt = λ a b. ltb a b;
  le = λ a b. leb a b;
  to_farenheit = λ n. n * 2 + 32;
  print4 = λ n. decimal n;
}

abbrev pub noon : Calendar
noon = record { now = 1000000; parse = λ s. none }

abbrev pub hot : Trigger ℕ
hot = record {
  val_type = 1;
  op = 5;
  action = 101;
  cond_value = 30;
  target = live (codes "4");
  args = null;
  value_unit = b'f';
}

abbrev pub humid : Trigger ℕ
humid = record hot { val_type = 2; value_unit = b'%' }

abbrev pub empty_triggers : Triggers ℕ
empty_triggers = record { table = replicate 16 hot; count = 0; last_update = 0 }

abbrev pub arrived : Message ℕ
arrived = record {
  mtype = 0;
  is_completed = false;
  sockfd = pos 7;
  retcode = pos 0;
  fcountq = none;
  fselectq = none;
  unitstr = default_unitstr;
  payload = nothing;
}

abbrev pub select_five : HttpCmd
select_five = record {
  cmdname = codes "fetch";
  length = 1;
  params = record { name = some (codes "select"); value = some (codes "5") } ∷ [];
}

abbrev pub unknown_name : HttpCmd
unknown_name = record {
  cmdname = codes "fetch";
  length = 1;
  params = record { name = some (codes "limit"); value = some (codes "5") } ∷ [];
}

abbrev pub home : Config
home = record {
  config_count = 2;
  measure_location = some (codes "home");
  device_name = some (codes "dht11");
  device_config = pos 4;
  query_interval = some (codes "1h");
  comm_port = pos 6005;
  num_worker_threads = pos 1;
}

abbrev pub third_measurement : ℕ → ℤ × ℕ × ℕ
third_measurement n = (if n == 2 then pos 0 else neg 2, 20 + n, 55)

abbrev pub no_params : HttpCmd
no_params = record { cmdname = codes "current"; length = 0; params = [] }
