-- ===== src/Daemon/Start/Checked.antt =====
-- What holds when main goes on to query_loop.
use rpiweatherd.Base.{
  ℕ, pos, neg, ◌≡◌, refl, ap, ◌∙◌, Bool, true, false, not, ◌&&◌, All, ltb, ◌==◌, eq_ℤ, Bytes, codes,
  ret, Holds, Holds-bind, Holds-if, Holds-ret, arith,
}
use rpiweatherd.Config.{config_has_errors}
use rpiweatherd.Config.Errors.{IsUsable, config_has_errors_iff}
use rpiweatherd.Config.File.{parse_config_file}
use rpiweatherd.Daemon.Arguments.{Settings}
use rpiweatherd.Daemon.Start.{
  Daemon, Surroundings, Started, refused, running, non_null, path_of, start_services, start_device,
  start_triggers, start_daemon,
}
use rpiweatherd.Database.Sqlite.{to_size}
use rpiweatherd.Database.Start.{
  sqlcmd_table_creation_queries, sqlcmd_insert_initial_stats, init_dbhandler,
  init_dbhandler-prepared,
}
use rpiweatherd.Device.Table.{
  dht11, dht11_row, supported_devices, select_device, device_init_by_name, current_driver,
  device_test_current,
}
use rpiweatherd.Trigger.Load.{load_triggers}
use rpiweatherd.Trigger.Codes.{parse_ok}

-- What main has checked.
pub record IsChecked {F : Type 0} (e : Surroundings F) (d : Daemon F) : Type 0 where
  pub usable : IsUsable d.config
  pub selected : current_driver d.devices ≡ ret (dht11_row (to_size d.config.device_config), dht11)
  pub tested : e.levels (to_size d.config.device_config) 0 ≡ true
  pub alone : e.pid_file ≡ false
  pub tables : All (λ sqlcmd. e.exec sqlcmd ≡ 0) sqlcmd_table_creation_queries
  pub stats : e.exec sqlcmd_insert_initial_stats ≡ 0

-- A start that is refused has checked nothing.
abbrev pub Checks : {F : Type 0} → Surroundings F → Started F → Type 0
Checks e (refused why) = Unit
Checks e (running d) = IsChecked e d

init_dbhandler-code :
    (opened : Bool) (exec : Bytes → ℕ) (queue_opened : Bool)
    → eq_ℤ (init_dbhandler opened exec queue_opened) (neg 1) ≡ false
    → init_dbhandler opened exec queue_opened ≡ pos 1
unfolding init_dbhandler
init_dbhandler-code opened exec queue_opened h = ground arith

module _ {F : Type 0} (e : Surroundings F) where
  start_services-Checks :
      (run_in_foreground : Bool) (d : Daemon F)
      → IsUsable d.config
      → current_driver d.devices ≡ ret (dht11_row (to_size d.config.device_config), dht11)
      → e.levels (to_size d.config.device_config) 0 ≡ true
      → e.pid_file ≡ false
      → Holds (Checks e) (start_services e run_in_foreground d)
  unfolding start_services
  start_services-Checks run_in_foreground d usable selected tested alone =
      Holds-if (Checks e) (not run_in_foreground && not e.daemonizes) _ _ (λ _. tt)
        λ _.
          Holds-if (Checks e) (eq_ℤ (init_dbhandler e.db_opened e.exec e.queue_opened) (neg 1)) _ _
            (λ _. tt)
            λ ok.
              let (_, tables, stats, _) =
                init_dbhandler-prepared e.db_opened e.exec e.queue_opened
                  (init_dbhandler-code e.db_opened e.exec e.queue_opened ok) in
              record {
                usable = usable;
                selected = selected;
                tested = tested;
                alone = alone;
                tables = tables;
                stats = stats;
              }

  -- Selecting the sensor, and testing it.
  start_device-Checks :
      (run_in_foreground : Bool) (d : Daemon F)
      → IsUsable d.config
      → d.devices.table ≡ supported_devices
      → e.pid_file ≡ false
      → Holds (Checks e) (start_device e run_in_foreground d)
  unfolding start_device device_init_by_name select_device device_test_current current_driver
  start_device-Checks run_in_foreground d usable table alone =
      Holds-bind (Checks e) (non_null d.config.device_name) _ λ name found.
        let known : name ≡ codes "dht11" = cc (found, ap non_null usable.named) in
        rw (known, table)
          (Holds-if (Checks e) (not (e.levels (to_size d.config.device_config) 0)) _ _ (λ _. tt)
            λ passed. start_services-Checks run_in_foreground _ usable refl (ground arith) alone)

  start_triggers-Checks :
      (erange run_in_foreground : Bool) (d : Daemon F)
      → IsUsable d.config
      → d.devices.table ≡ supported_devices
      → Holds (Checks e) (start_triggers e erange run_in_foreground d)
  unfolding start_triggers
  start_triggers-Checks erange run_in_foreground d usable table =
      Holds-bind (Checks e) (load_triggers e.floats e.malloc e.trigger_file erange d.triggers) _
        λ (flag, triggers) _.
          Holds-if (Checks e) (not (flag == parse_ok)) _ _ (λ _. tt)
            λ _.
              Holds-if (Checks e) e.pid_file _ _ (λ _. tt)
                λ alone.
                  start_device-Checks run_in_foreground (record d { triggers = triggers }) usable
                    table alone

  start_daemon-Checks :
      (s : Settings) (d : Daemon F)
      → d.devices.table ≡ supported_devices
      → Holds (Checks e) (start_daemon e s d)
  unfolding start_daemon
  start_daemon-Checks s d table = Holds-bind (Checks e) (non_null (path_of e s)) _ λ path _.
      let (flag, config, erange) = parse_config_file e.malloc e.ini_parse path d.config false in
      Holds-if (Checks e) (not (eq_ℤ flag (pos 0))) _ _ (λ _. tt)
        λ _. Holds-bind (Checks e) (config_has_errors config) _ λ errors found.
          Holds-if (Checks e) (ltb 0 errors) _ _ (λ _. tt)
            λ few.
              let none_ : errors ≡ 0 = ground arith in
              start_triggers-Checks erange s.run_in_foreground (record d { config = config })
                ((config_has_errors_iff config).0 (found ∙ ap ret none_)) table

  -- If main goes on to query_loop, from the table of supported devices, then the configuration that
  -- was read has no errors, the sensor is selected with the pin of the configuration, its test
  -- found the pin high, there was no file of another process, and each of the texts that prepare
  -- the data base was executed without an error.
  pub start_daemon-IsChecked :
      (s : Settings) (d : Daemon F) {d' : Daemon F}
      → d.devices.table ≡ supported_devices
      → start_daemon e s d ≡ ret (running d')
      → IsChecked e d'
  start_daemon-IsChecked s d table h =
      Holds-ret (Checks e) (start_daemon e s d) (start_daemon-Checks s d table) h
