-- ===== src/Listener/Table/Types.antt =====
-- What `data` leads to in the messages that the callbacks of the table succeed with.
use rpiweatherd.Base.{All, ℕ, ℤ, ◌≡◌, ◌≢◌, ap, Bool, true, ◌||◌, ◌==◌, ret, >>=-eq-ret, arith}
use rpiweatherd.CLib.Text.{Malloc}
use rpiweatherd.Config.{Config}
use rpiweatherd.Http.Params.{HttpCmd}
use rpiweatherd.Listener.Codes.{
  success, msgtype_writeentry, msgtype_fetch, msgtype_current, msgtype_stats, msgtype_config,
}
use rpiweatherd.Listener.ConfigCommand.{config_command_callback}
use rpiweatherd.Listener.Current.{
  Checked, refuse, accept, check_params, fill_entry, answer_current, current_command_callback,
}
use rpiweatherd.Listener.Current.Measured.{check_params_refuses}
use rpiweatherd.Listener.Fetch.{fetch_command_callback}
use rpiweatherd.Listener.Fetch.Laws.{fetch_command_callback-Succeeds}
use rpiweatherd.Listener.Message.{Message, Payload, nothing, one_entry, entry_list, key_values}
use rpiweatherd.Listener.Statistics.{Host, statistics_command_callback}
use rpiweatherd.Listener.Table.{Callback, Services, Moment, cmd_callback_table}
use rpiweatherd.Util.Dates.{Calendar}
use rpiweatherd.Util.Units.{Count}

module _ {F : Type 0} where
  -- `data` leads to what a message of this type is read as, or is NULL.
  abbrev pub fits : ℕ → Payload F → Bool
  fits mtype nothing = true
  fits mtype (one_entry e) = mtype == msgtype_current || mtype == msgtype_writeentry
  fits mtype (entry_list list) = mtype == msgtype_fetch
  fits mtype (key_values list) = mtype == msgtype_stats || mtype == msgtype_config

  -- The list of a fetch comes from the data base only.
  abbrev pub fits_or_fetches : Message F → Bool
  fits_or_fetches msg = msg.mtype == msgtype_fetch || fits msg.mtype msg.payload

  abbrev pub TypesAny : Callback F → Type 0
  TypesAny callback =
      (cmd : HttpCmd) (msg msg' : Message F)
      → callback cmd msg ≡ ret (success, msg')
      → fits_or_fetches msg' ≡ true

  fetch_command_callback-TypesAny :
      (count : Count F) (calendar : Calendar) (erange : Bool)
      → TypesAny (fetch_command_callback count calendar erange)
  fetch_command_callback-TypesAny count calendar erange cmd msg msg' h =
      let s = fetch_command_callback-Succeeds count calendar erange cmd msg {msg' = msg'} h in
      ground (arith, s.message)

  statistics_command_callback-TypesAny :
      (services : Services F) (db : services.sql.Db) (host : Host)
      → TypesAny
          (statistics_command_callback services.sql services.to_farenheit services.malloc db host)
  unfolding statistics_command_callback
  statistics_command_callback-TypesAny services db host cmd msg msg' h = ground arith

  config_command_callback-TypesAny :
      (malloc : Malloc) (config : Config) → TypesAny (config_command_callback malloc config)
  unfolding config_command_callback
  config_command_callback-TypesAny malloc config cmd msg msg' h = ground arith

  answer_current-types :
      (to_farenheit : F → F) (queries : ℕ → ℤ × F × F) (malloc : Malloc) (config : Config)
      (msg : Message F) (checked : Checked) {msg' : Message F}
      → checked ≢ refuse success
      → answer_current to_farenheit queries malloc config msg checked ≡ ret (success, msg')
      → fits_or_fetches msg' ≡ true
  unfolding answer_current fill_entry
  answer_current-types to_farenheit queries malloc config msg (refuse code) accepted h =
      let e : code ≡ success = cc in absurd (accepted (ap refuse e))
  answer_current-types to_farenheit queries malloc config msg (accept unitstr) accepted h =
      ground arith

  current_command_callback-TypesAny :
      (to_farenheit : F → F) (queries : ℕ → ℤ × F × F) (malloc : Malloc) (config : Config)
      → TypesAny (current_command_callback to_farenheit queries malloc config)
  unfolding current_command_callback
  current_command_callback-TypesAny to_farenheit queries malloc config cmd msg msg' h =
      let (checked, e, h₁) = >>=-eq-ret (check_params cmd msg.unitstr) _ h in
      answer_current-types to_farenheit queries malloc config msg checked
        (check_params_refuses cmd msg.unitstr e) h₁

  pub cmd_callback_table-TypesAny :
      (services : Services F) (db : services.sql.Db) (moment : Moment F)
      → All (λ row. TypesAny row.1) (cmd_callback_table services db moment)
  unfolding cmd_callback_table
  cmd_callback_table-TypesAny services db moment = (
    fetch_command_callback-TypesAny services.count moment.calendar moment.erange,
    (
      current_command_callback-TypesAny services.to_farenheit moment.queries services.malloc
          services.config,
      (
        statistics_command_callback-TypesAny services db moment.host,
        (config_command_callback-TypesAny services.malloc services.config, tt),
      ),
    ),
  )
