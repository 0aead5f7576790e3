-- ===== src/Listener/ConfigCommand.antt =====
-- src/listener.c: config_command_callback.
pub mod Pairs
use rpiweatherd.Base.{ℕ, ℤ, true, Option, none, some, List, [], ◌∷◌, Bytes, codes, Outcome, ret}
use rpiweatherd.CLib.Text.{Malloc}
use rpiweatherd.CLib.Decimal.{decimal_ℤ}
use rpiweatherd.Config.{Config}
use rpiweatherd.Data.KeyValues.{key_value_list_alloc, emplace_all}
use rpiweatherd.Http.Params.{HttpCmd}
use rpiweatherd.Listener.Codes.{success, memory_error, msgtype_config}
use rpiweatherd.Listener.Message.{Message, nothing, key_values}

-- The pairs that are put into the list, one after the other.
unfoldable pub config_pairs : Config → List (Option Bytes × Option Bytes)
unfolding decimal_ℤ
config_pairs c =
    (some (codes "measure_location"), c.measure_location)
    ∷ (some (codes "query_interval"), c.query_interval)
    ∷ (some (codes "device_name"), c.device_name)
    ∷ (some (codes "device_config"), some (decimal_ℤ c.device_config))
    ∷ (some (codes "comm_port"), some (decimal_ℤ c.comm_port))
    ∷ (some (codes "num_worker_threads"), some (decimal_ℤ c.num_worker_threads))
    ∷ []

-- The list has room for as many pairs as the configuration file had entries.
unfoldable pub config_command_callback :
    {F : Type 0} → Malloc → Config → HttpCmd → Message F → Outcome (ℤ × Message F)
config_command_callback malloc c cmd msg = elim (key_value_list_alloc malloc c.config_count) [
  | none ↦ ret (memory_error, record msg { payload = nothing })
  | some kvlist ↦ ret (
    success,
    record msg {
      payload = key_values (emplace_all malloc (config_pairs c) kvlist);
      mtype = msgtype_config;
      is_completed = true;
    },
  )
]
