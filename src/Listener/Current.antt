-- ===== src/Listener/Current.antt =====
-- src/listener.c: current_command_callback. What the queries of the device return, call by call, is
-- a parameter: the code, the temperature and the humidity; `to_farenheit` is the macro
-- RPIWD_CELSIUS_TO_FARENHEIT of include/util.h on floats.
pub mod Measured
use rpiweatherd.Base.{
  ℕ, zero, suc, ℤ, pos, neg, Bool, true, Option, none, some, List, [], ◌∷◌, ◌==◌, ltb, eq_ℤ, not,
  if◌then◌else◌, Bytes, codes, str_eq, get_elem?, set, Outcome, ret, fault, null_pointer,
  read_overflow, ◌>>=◌,
}
use rpiweatherd.CLib.Text.{Malloc, strdup_set, to_lower}
use rpiweatherd.Config.{Config}
use rpiweatherd.Daemon.{config_max_query_attempts}
use rpiweatherd.Device.Dht11.{devretcode_success}
use rpiweatherd.Http.Params.{HttpCmdParam, HttpCmd}
use rpiweatherd.Listener.Codes.{
  success, unknown_param, param_error, too_many_params, device_error, msgtype_current,
}
use rpiweatherd.Data.Entries.{Entry, sizeof_entry}
use rpiweatherd.Listener.Message.{Message, nothing, one_entry}

-- A parameter is refused with a code, or leaves a unit string.
pub data Checked : Type 0 where
  refuse : ℤ → Checked
  accept : List ℕ → Checked

unfoldable pub check_unit : Option Bytes → ℕ → List ℕ → Outcome Checked
unfolding str_eq
check_unit none letter unitstr = fault null_pointer
check_unit (some name) letter unitstr =
    if not (str_eq name (codes "tempunit"))
    then ret (refuse unknown_param)
    else if letter == b'f'
    then ret (accept (set unitstr 0 b'f'))
    else if letter == b'c'
    then ret (accept (set unitstr 0 b'c'))
    else ret (refuse param_error)

-- `strlen` on a null pointer faults.
unfoldable pub check_value : Option Bytes → Option Bytes → List ℕ → Outcome Checked
unfolding to_lower check_unit
check_value name none unitstr = fault null_pointer
check_value name (some (c ∷ [])) unitstr = check_unit name (to_lower c) unitstr
check_value name (some _) unitstr = ret (refuse param_error)

unfoldable pub check_params : HttpCmd → List ℕ → Outcome Checked
unfolding check_value
check_params cmd unitstr =
    if cmd.length == 1
    then elim (get_elem? cmd.params 0) [
      | none ↦ fault read_overflow
      | some p ↦ check_value p.name p.value unitstr
    ]
    else if ltb 1 cmd.length
    then ret (refuse too_many_params)
    else ret (accept unitstr)

module _ {F : Type 0} (to_farenheit : F → F) (queries : ℕ → ℤ × F × F) where
  -- The loop over the attempts, from call `n` on: the call that succeeded.
  unfoldable pub query_current : ℕ → ℕ → Option ℕ
  query_current zero n = none
  query_current (suc left) n =
      let later = query_current left (suc n) in
      if eq_ℤ (queries n).0 devretcode_success then some n else later

  -- The temperature in the unit that the message asks for.
  unfoldable pub in_unit : List ℕ → F → F
  in_unit unitstr t = elim (get_elem? unitstr 0) [
    | none ↦ to_farenheit t
    | some unit ↦ if unit == b'c' then t else to_farenheit t
  ]

  unfoldable pub fill_entry : Malloc → Config → Message F → ℕ → Outcome (ℤ × Message F)
  unfolding strdup_set in_unit
  fill_entry malloc c msg n =
      if not (malloc sizeof_entry)
      then ret (device_error, record msg { payload = nothing })
      else (do
        location ← strdup_set malloc c.measure_location
        device_name ← strdup_set malloc c.device_name
        ret (
          success,
          record msg {
            mtype = msgtype_current;
            is_completed = true;
            payload = one_entry (record {
              id = neg 1;
              record_date = none;
              temperature = in_unit msg.unitstr (queries n).1;
              humidity = (queries n).2;
              location = location;
              device_name = device_name;
            });
          },
        ))

  unfoldable pub answer_current : Malloc → Config → Message F → Checked → Outcome (ℤ × Message F)
  answer_current malloc c msg (refuse code) = ret (code, msg)
  answer_current malloc c msg (accept unitstr) =
      let msg' = record msg { unitstr = unitstr } in
      elim (query_current config_max_query_attempts 0) [
        | none ↦ ret (device_error, msg')
        | some n ↦ fill_entry malloc c msg' n
      ]

  unfoldable pub current_command_callback :
      Malloc → Config → HttpCmd → Message F → Outcome (ℤ × Message F)
  current_command_callback malloc c cmd msg = do
    checked ← check_params cmd msg.unitstr
    answer_current malloc c msg checked
