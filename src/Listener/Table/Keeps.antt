-- ===== src/Listener/Table/Keeps.antt =====
-- What every callback of the table keeps of a message.
use rpiweatherd.Base.{
  All, ℕ, ℤ, ◌≡◌, refl, Bool, true, false, ◌||◌, ◌==◌, ret, >>=-eq-ret, ap, ◌∙◌, arith,
}
use rpiweatherd.CLib.Text.{Malloc}
use rpiweatherd.Config.{Config}
use rpiweatherd.Http.Params.{HttpCmd, used}
use rpiweatherd.Listener.Codes.{success, msgtype_fetch, msgtype_stats}
use rpiweatherd.Listener.Message.{Message}
use rpiweatherd.Listener.ConfigCommand.{config_command_callback}
use rpiweatherd.Listener.Current.{
  Checked, refuse, accept, check_params, fill_entry, answer_current, current_command_callback,
}
use rpiweatherd.Listener.Current.Measured.{current_command_callback-Measures}
use rpiweatherd.Listener.Fetch.{
  Round, go_on, break, leave, fetch_params, finish_fetch, end_loop, start, fetch_command_callback,
}
use rpiweatherd.Listener.Fetch.Laws.{fetch_command_callback-Succeeds}
use rpiweatherd.Listener.Statistics.{Host, statistics_command_callback}
use rpiweatherd.Listener.Table.{Callback, Services, Moment, cmd_callback_table}
use rpiweatherd.Util.Dates.{Calendar}
use rpiweatherd.Util.Units.{Count}

module _ {F : Type 0} where
  -- The client stays the same, and a message that succeeds is for the data base or is completed.
  pub record Keeps (msg : Message F) (code : ℤ) (msg' : Message F) : Type 0 where
    pub same_socket : msg'.sockfd ≡ msg.sockfd
    pub served :
        code ≡ success
        → (msg'.mtype == msgtype_fetch || msg'.mtype == msgtype_stats) ≡ false
        → msg'.is_completed ≡ true

  finish_fetch-sockfd :
      (count : Count F) (calendar : Calendar) (msg : Message F) (round : Round)
      → (end_loop count calendar msg round).1.sockfd ≡ msg.sockfd
  unfolding end_loop finish_fetch
  finish_fetch-sockfd count calendar msg (go_on r) = ground arith
  finish_fetch-sockfd count calendar msg (break code r) = ground arith
  finish_fetch-sockfd count calendar msg (leave code r) = refl

  fetch_command_callback-Keeps :
      (count : Count F) (calendar : Calendar) (erange : Bool) (cmd : HttpCmd) (msg : Message F)
      {code : ℤ} {msg' : Message F}
      → fetch_command_callback count calendar erange cmd msg ≡ ret (code, msg')
      → Keeps msg code msg'
  unfolding fetch_command_callback
  fetch_command_callback-Keeps count calendar erange cmd msg {msg'} h =
      let (round, e, h₁) =
        >>=-eq-ret (fetch_params count calendar (used cmd) (start count calendar erange msg)) _ h in
      record {
        same_socket = ground (arith, finish_fetch-sockfd count calendar msg round);
        served = λ ok other.
            let s =
              fetch_command_callback-Succeeds count calendar erange cmd msg {msg' = msg'}
                (h ∙ ap (λ c. ret (c, msg')) ok) in
            ground (arith, s.message);
      }

  statistics_command_callback-Keeps :
      (services : Services F) (db : services.sql.Db) (host : Host) (cmd : HttpCmd) (msg : Message F)
      {code : ℤ} {msg' : Message F}
      → statistics_command_callback services.sql services.to_farenheit services.malloc db host cmd
          msg
        ≡ ret (code, msg')
      → Keeps msg code msg'
  unfolding statistics_command_callback
  statistics_command_callback-Keeps services db host cmd msg h = ground arith

  config_command_callback-Keeps :
      (malloc : Malloc) (config : Config) (cmd : HttpCmd) (msg : Message F) {code : ℤ}
      {msg' : Message F}
      → config_command_callback malloc config cmd msg ≡ ret (code, msg')
      → Keeps msg code msg'
  unfolding config_command_callback
  config_command_callback-Keeps malloc config cmd msg h = ground arith

  answer_current-sockfd :
      (to_farenheit : F → F) (queries : ℕ → ℤ × F × F) (malloc : Malloc) (config : Config)
      (msg : Message F) (checked : Checked) {code : ℤ} {msg' : Message F}
      → answer_current to_farenheit queries malloc config msg checked ≡ ret (code, msg')
      → msg'.sockfd ≡ msg.sockfd
  unfolding answer_current fill_entry
  answer_current-sockfd to_farenheit queries malloc config msg (refuse c) h = ground arith
  answer_current-sockfd to_farenheit queries malloc config msg (accept unitstr) h = ground arith

  current_command_callback-Keeps :
      (to_farenheit : F → F) (queries : ℕ → ℤ × F × F) (malloc : Malloc) (config : Config)
      (cmd : HttpCmd) (msg : Message F) {code : ℤ} {msg' : Message F}
      → current_command_callback to_farenheit queries malloc config cmd msg ≡ ret (code, msg')
      → Keeps msg code msg'
  unfolding current_command_callback
  current_command_callback-Keeps to_farenheit queries malloc config cmd msg {msg'} h =
      let (checked, _, h₁) = >>=-eq-ret (check_params cmd msg.unitstr) _ h in
      record {
        same_socket = answer_current-sockfd to_farenheit queries malloc config msg checked h₁;
        served = λ ok _.
            (current_command_callback-Measures to_farenheit queries malloc config cmd msg
              {msg' = msg'} (h ∙ ap (λ c. ret (c, msg')) ok)).3.completed;
      }

  -- A callback keeps every message.
  abbrev pub KeepsAny : Callback F → Type 0
  KeepsAny callback =
      (cmd : HttpCmd) (msg : Message F) (code : ℤ) (msg' : Message F)
      → callback cmd msg ≡ ret (code, msg')
      → Keeps msg code msg'

  pub cmd_callback_table-KeepsAny :
      (services : Services F) (db : services.sql.Db) (moment : Moment F)
      → All (λ row. KeepsAny row.1) (cmd_callback_table services db moment)
  unfolding cmd_callback_table
  cmd_callback_table-KeepsAny services db moment = (
    (λ cmd msg code msg' h.
        fetch_command_callback-Keeps services.count moment.calendar moment.erange cmd msg h),
    (
      (λ cmd msg code msg' h.
          current_command_callback-Keeps services.to_farenheit moment.queries services.malloc
            services.config cmd msg h),
      (
        (λ cmd msg code msg' h.
            statistics_command_callback-Keeps services db moment.host cmd msg h),
        (
          (λ cmd msg code msg' h.
              config_command_callback-Keeps services.malloc services.config cmd msg h),
          tt,
        ),
      ),
    ),
  )
