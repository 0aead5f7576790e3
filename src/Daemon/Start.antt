-- ===== src/Daemon/Start.antt =====
-- src/rpiweatherd.c: main, behind its options, up to query_loop.
pub mod Checked
use rpiweatherd.Base.{
  ℕ, ℤ, pos, neg, Bool, true, false, not, ◌&&◌, Option, none, some, List, ltb, ◌==◌, eq_ℤ,
  if◌then◌else◌, Bytes, codes, Outcome, ret, fault, null_pointer, ◌>>=◌,
}
use rpiweatherd.CLib.Text.{Malloc, strdup}
use rpiweatherd.Config.{Config, config_has_errors}
use rpiweatherd.Config.File.{IniParse, parse_config_file}
use rpiweatherd.Daemon.Arguments.{Settings}
use rpiweatherd.Database.Sqlite.{to_size}
use rpiweatherd.Database.Start.{init_dbhandler}
use rpiweatherd.Device.Dht11.{Pin}
use rpiweatherd.Device.Table.{
  Devices, retcode_device_init_ok, device_init_by_name, device_test_current,
}
use rpiweatherd.Trigger.Codes.{parse_ok}
use rpiweatherd.Trigger.Floats.{Floats}
use rpiweatherd.Trigger.Load.{Triggers, load_triggers}

-- The static variables of the modules.
pub record Daemon (F : Type 0) : Type 0 where
  pub config : Config
  pub triggers : Triggers F
  pub devices : Devices

-- What the start meets: the files, the levels of the pins, and what the system calls return.
pub record Surroundings (F : Type 0) : Type 0 where
  pub malloc : Malloc
  pub floats : Floats F
  pub ini_parse : IniParse
  pub trigger_file : Option (List Bytes)
  pub pid_file : Bool
  pub levels : ℕ → Pin
  pub daemonizes : Bool
  pub db_opened : Bool
  pub exec : Bytes → ℕ
  pub queue_opened : Bool

-- Why main gives up.
pub data Refusal : Type 0 where
  config_unreadable : Refusal
  config_errors : Refusal
  triggers_unreadable : Refusal
  pid_file_found : Refusal
  device_unknown : Refusal
  device_failed : Refusal
  no_daemon : Refusal
  no_database : Refusal

pub data Started (F : Type 0) : Type 0 where
  refused : Refusal → Started F
  running : Daemon F → Started F

-- A pointer to a string that is passed on.
abbrev pub non_null : Option Bytes → Outcome Bytes
non_null none = fault null_pointer
non_null (some s) = ret s

module _ {F : Type 0} (e : Surroundings F) where
  unfoldable pub start_services : Bool → Daemon F → Outcome (Started F)
  unfolding init_dbhandler
  start_services run_in_foreground d =
      if not run_in_foreground && not e.daemonizes
      then ret (refused no_daemon)
      else if eq_ℤ (init_dbhandler e.db_opened e.exec e.queue_opened) (neg 1)
      then ret (refused no_database)
      else ret (running d)

  -- A pin is passed on as the word that its number is.
  unfoldable pub start_device : Bool → Daemon F → Outcome (Started F)
  unfolding device_init_by_name device_test_current
  start_device run_in_foreground d = do
    device_name ← non_null d.config.device_name
    (devinit_flag, devices) ←
        device_init_by_name device_name (to_size d.config.device_config) d.devices
    (if not (eq_ℤ devinit_flag retcode_device_init_ok) then ret (refused device_unknown) else (do
      passed ← device_test_current e.levels devices
      (if not passed
          then ret (refused device_failed)
          else start_services run_in_foreground (record d { devices = devices }))))

  unfoldable pub start_triggers : Bool → Bool → Daemon F → Outcome (Started F)
  unfolding load_triggers
  start_triggers erange run_in_foreground d = do
    (flag, triggers) ← load_triggers e.floats e.malloc e.trigger_file erange d.triggers
    (if not (flag == parse_ok)
        then ret (refused triggers_unreadable)
        else if e.pid_file
        then ret (refused pid_file_found)
        else start_device run_in_foreground (record d { triggers = triggers }))

  -- The path of the options, or the default. A path that could not be copied is NULL.
  unfoldable pub path_of : Settings → Option Bytes
  unfolding strdup
  path_of s = elim s.config_path [
    | none ↦ strdup e.malloc (codes "/etc/rpiweatherd/rpiweatherd.conf")
    | some path ↦ some path
  ]

  unfoldable pub start_daemon : Settings → Daemon F → Outcome (Started F)
  unfolding parse_config_file config_has_errors
  start_daemon s d = do
    path ← non_null (path_of s)
    let (flag, config, erange) = parse_config_file e.malloc e.ini_parse path d.config false
    (if not (eq_ℤ flag (pos 0)) then ret (refused config_unreadable) else (do
      errors ← config_has_errors config
      (if ltb 0 errors
          then ret (refused config_errors)
          else start_triggers erange s.run_in_foreground (record d { config = config }))))
