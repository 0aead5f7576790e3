-- ===== src/Listener/ConfigCommand/Pairs.antt =====
-- What the config command answers.
use rpiweatherd.Base.{◌*◌, ◌-◌, ◌≡◌, refl, true, [], ret, take, map, arith}
use rpiweatherd.CLib.Text.{Malloc}
use rpiweatherd.Config.{Config}
use rpiweatherd.Data.KeyValues.{KeyValueList, key_value_list_alloc, emplace_all}
use rpiweatherd.Data.KeyValues.Bounds.{IsValid, emplaced, emplace_all_lem}
use rpiweatherd.Http.Params.{HttpCmd}
use rpiweatherd.Http.Parser.Parts.{Available}
use rpiweatherd.Listener.Codes.{success, msgtype_config}
use rpiweatherd.Listener.Message.{Message, key_values}
use rpiweatherd.Listener.ConfigCommand.{config_pairs, config_command_callback}

-- If memory is available, the config command succeeds and completes the message with a valid list
-- of the configuration's pairs, cut down to as many as the configuration file had entries.
pub config_command_callback-pairs :
    {F : Type 0} (malloc : Malloc) (c : Config) (cmd : HttpCmd) (msg : Message F)
    → Available malloc
    → (list : KeyValueList) × (config_command_callback malloc c cmd msg
        ≡ ret (
          success,
          record msg { payload = key_values list; mtype = msgtype_config; is_completed = true },
        ))
      × (list.pairs ≡ take c.config_count (map (emplaced malloc) (config_pairs c)))
      × IsValid list
unfolding config_command_callback key_value_list_alloc
config_command_callback-pairs malloc c cmd msg m =
    let empty : KeyValueList = record { length = 0; capacity = c.config_count; pairs = [] } in
    let (pairs, valid) =
      emplace_all_lem malloc (config_pairs c) empty
        (record { counted = refl; fits = omega arith }) in
    let same : c.config_count - 0 ≡ c.config_count = omega arith in
    (
      emplace_all malloc (config_pairs c) empty,
      ground (arith, m 12, m (8 * c.config_count)),
      rw same at pairs,
      valid,
    )
