-- ===== src/Listener/Table.antt =====
-- src/listener.c: CMD_CALLBACK_TABLE, with what its callbacks take from the rest of the daemon and
-- from the system.
pub mod Keeps
pub mod Types
use rpiweatherd.Base.{ℕ, ℤ, Bool, List, [], ◌∷◌, Bytes, codes, Outcome}
use rpiweatherd.CLib.Text.{Malloc}
use rpiweatherd.Config.{Config}
use rpiweatherd.Database.Sqlite.{Sqlite}
use rpiweatherd.Http.Params.{HttpCmd}
use rpiweatherd.Listener.ConfigCommand.{config_command_callback}
use rpiweatherd.Listener.Current.{current_command_callback}
use rpiweatherd.Listener.Fetch.{fetch_command_callback}
use rpiweatherd.Listener.Message.{Message}
use rpiweatherd.Listener.Statistics.{Host, statistics_command_callback}
use rpiweatherd.Util.Dates.{Calendar}
use rpiweatherd.Util.Units.{Count}

abbrev pub Callback : Type 0 → Type 0
Callback F = HttpCmd → Message F → Outcome (ℤ × Message F)

-- What stays: the libraries, the configuration and the conversion of a temperature.
pub record Services (F : Type 0) : Type 1 where
  pub sql : Sqlite F
  pub count : Count F
  pub to_farenheit : F → F
  pub malloc : Malloc
  pub config : Config

-- What a command finds: the clock, errno, the device's answers, and the system.
pub record Moment (F : Type 0) : Type 0 where
  pub calendar : Calendar
  pub erange : Bool
  pub queries : ℕ → ℤ × F × F
  pub host : Host

unfoldable pub cmd_callback_table :
    {F : Type 0} (services : Services F) → services.sql.Db → Moment F → List (Bytes × Callback F)
cmd_callback_table services db moment =
    (
      codes "fetch",
      λ cmd msg. fetch_command_callback services.count moment.calendar moment.erange cmd msg,
    )
    ∷ (
      codes "current",
      λ cmd msg.
          current_command_callback services.to_farenheit moment.queries services.malloc
            services.config cmd msg,
    )
    ∷ (
      codes "statistics",
      λ cmd msg.
          statistics_command_callback services.sql services.to_farenheit services.malloc db
            moment.host cmd msg,
    )
    ∷ (codes "config", λ cmd msg. config_command_callback services.malloc services.config cmd msg)
    ∷ []
