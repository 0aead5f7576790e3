-- ===== src/Listener/Worker.antt =====
-- src/http.c: read_and_parse_response; src/listener.c: the strings of the callback codes,
-- dispatch_command, and one round of worker_listener_loop. What a round does is a list of actions;
-- the callbacks and the JSON serializer are parameters.
pub mod Actions
pub mod EndOfFile
pub mod Receives
use rpiweatherd.Base.{
  ℕ, ◌+◌, ℤ, pos, Bool, true, false, not, ◌&&◌, ◌||◌, Option, none, some, List, [], ◌∷◌, ◌++◌, ◌==◌,
  eq_ℤ, if◌then◌else◌, Bytes, length, take, drop, codes, str_eq, Outcome, ret, fault, read_overflow,
  dangling, uninitialised, ◌>>=◌,
}
use rpiweatherd.CLib.Text.{Malloc, has_char, find}
use rpiweatherd.CLib.Token.{take_until}
use rpiweatherd.Util.Lines.{crlf}
use rpiweatherd.Http.Codes.{http_parser_strerror, response_buffer_size}
use rpiweatherd.Http.Params.{HttpCmd}
use rpiweatherd.Http.Parser.{parse_http_request}
use rpiweatherd.Listener.Codes
use rpiweatherd.Listener.Message.{Message, Payload, nothing, one_entry, entry_list, key_values}
use rpiweatherd.Listener.Table.{Callback}
use rpiweatherd.Data.Json.{
  Call, entry_to_json_value, entrylist_to_json_value, key_value_list_to_json_value,
}
use rpiweatherd.Database.Sqlite.{dbhandler_strerror}

-- What a read from the socket returns: -1, 0, or bytes.
pub data Input : Type 0 where
  failed : Input
  end_of_file : Input
  received : Bytes → Input

-- The variables that live across the rounds of a worker's loop: of `jval`, whether it leads to a
-- value that was freed or is NULL.
pub record Worker : Type 0 where
  pub response : ℤ
  pub is_eof : Bool
  pub jval_freed : Bool

pub data Action (F : Type 0) : Type 0 where
  send_error : ℕ → ℤ → Bytes → Action F
  send_data : ℕ → Option Bytes → Action F
  close : Action F
  send_to_db : Message F → Action F
  send_to_workers : Message F → Action F

-- The buffer behind a read of at most its size: the new bytes, then what was there.
abbrev pub fill : Bytes → Bytes → Bytes
fill text stale = take response_buffer_size (text ++ drop (length text) stale)

-- The request as a string. The search for the end of the line runs past a buffer that holds neither
-- that nor a NUL.
unfoldable pub c_string : Bytes → Outcome Bytes
unfolding find has_char
c_string buffer =
    if has_char 0 buffer
    then ret (take_until (λ c. c == 0) buffer)
    else elim (find crlf buffer) [ none ↦ fault read_overflow | some _ ↦ ret buffer ]

-- The command, or NULL, and the variables.
unfoldable pub read_and_parse_response :
    Malloc → Bytes → Input → Worker → Outcome (Option HttpCmd × Worker)
read_and_parse_response malloc stale failed w = ret (none, w)
read_and_parse_response malloc stale end_of_file w = ret (none, record w { is_eof = true })
read_and_parse_response malloc stale (received text) w = do
  request ← c_string (fill text stale)
  (cmd, response) ← parse_http_request malloc request w.response
  ret (cmd, record w { response = response })

unfoldable pub command_callback_strerror : ℤ → Bytes
command_callback_strerror errcode =
    if eq_ℤ errcode Codes.success
    then codes "Success"
    else if eq_ℤ errcode Codes.unknown_param
    then codes "Query contains unknown parameters; please refer to documentation."
    else if eq_ℤ errcode Codes.param_error
    then codes "Query parameter has incorrect value."
    else if eq_ℤ errcode Codes.unknown_command
    then codes "Unrecognized command."
    else if eq_ℤ errcode Codes.params_missing
    then codes "Command requires parameters."
    else if eq_ℤ errcode Codes.too_many_params
    then codes "Too many parameters."
    else if eq_ℤ errcode Codes.no_params_needed
    then codes "Parameters provided to command but the command does not accept any arguments."
    else codes "Unknown command callback error."

-- What the environment brings to a round.
pub record Round (F : Type 0) : Type 0 where
  pub message : Message F
  pub input : Input
  pub stale : Bytes

module _ {F : Type 0} where
  -- The loop over the table of callbacks.
  unfoldable pub dispatch_command : List (Bytes × Callback F) → Callback F
  unfolding str_eq
  dispatch_command [] cmd msg = ret (Codes.unknown_command, msg)
  dispatch_command ((cmd_name, callback) ∷ rows) cmd msg =
      if str_eq cmd_name cmd.cmdname then callback cmd msg else dispatch_command rows cmd msg

  -- The callback's code decides between an answer and a queue.
  unfoldable pub after_dispatch : ℤ × Message F → List (Action F)
  after_dispatch (cmd_status, msg) =
      if not (eq_ℤ cmd_status Codes.success)
      then send_error 400 cmd_status (command_callback_strerror cmd_status) ∷ close ∷ []
      else if msg.mtype == Codes.msgtype_fetch || msg.mtype == Codes.msgtype_stats
      then send_to_db msg ∷ []
      else send_to_workers msg ∷ []

  unfoldable pub answer_request :
      List (Bytes × Callback F)
      → Message F
      → Option HttpCmd × Worker
      → Outcome (List (Action F) × Worker)
  answer_request table msg (none, w) = ret (
    (if not w.is_eof
        then send_error 400 (pos 400) (http_parser_strerror w.response) ∷ close ∷ []
        else close ∷ []),
    w,
  )
  answer_request table msg (some cmd, w) =
      if str_eq cmd.cmdname (codes "favicon.ico") || str_eq cmd.cmdname (codes "text-html")
      then ret (send_data 204 none ∷ close ∷ [], w)
      else (do result ← dispatch_command table cmd msg; ret (after_dispatch result, w))

  -- The JSON value of what a message carries, by its type, or NULL. What is of another type is not
  -- read as if it were of this one. For a type that the switch does not name, `jval` stays.
  unfoldable pub fetch_json : Payload F → List ℕ → Outcome (Option (List (Call F)))
  unfolding entrylist_to_json_value
  fetch_json nothing unitstr = entrylist_to_json_value none unitstr
  fetch_json (entry_list list) unitstr = entrylist_to_json_value (some list) unitstr
  fetch_json _ unitstr = fault uninitialised

  unfoldable pub current_json : Payload F → List ℕ → Outcome (Option (List (Call F)))
  unfolding entry_to_json_value
  current_json nothing unitstr = entry_to_json_value none unitstr
  current_json (one_entry e) unitstr = entry_to_json_value (some e) unitstr
  current_json _ unitstr = fault uninitialised

  unfoldable pub pairs_json : Payload F → Outcome (Option (List (Call F)))
  unfolding key_value_list_to_json_value
  pairs_json nothing = key_value_list_to_json_value none
  pairs_json (key_values list) = key_value_list_to_json_value (some list)
  pairs_json _ = fault uninitialised

  unfoldable pub message_json : Bool → Message F → Outcome (Option (List (Call F)))
  unfolding fetch_json current_json pairs_json
  message_json jval_freed msg =
      if msg.mtype == Codes.msgtype_fetch
      then fetch_json msg.payload msg.unitstr
      else if msg.mtype == Codes.msgtype_current
      then current_json msg.payload msg.unitstr
      else if msg.mtype == Codes.msgtype_stats || msg.mtype == Codes.msgtype_config
      then pairs_json msg.payload
      else if jval_freed
      then fault dangling
      else ret none

  -- A completed message: the serialized value, or an error where there is no value.
  unfoldable pub answer_completed :
      (List (Call F) → Option Bytes)
      → Message F
      → Worker
      → Option (List (Call F))
      → List (Action F) × Worker
  answer_completed serialize msg w (some calls) =
      (send_data 200 (serialize calls) ∷ close ∷ [], record w { jval_freed = true })
  answer_completed serialize msg w none = (
    send_error 400 msg.retcode (dbhandler_strerror msg.retcode) ∷ close ∷ [],
    record w { jval_freed = false },
  )

  unfoldable pub worker_round :
      Malloc
      → List (Bytes × Callback F)
      → (List (Call F) → Option Bytes)
      → Round F
      → Worker
      → Outcome (List (Action F) × Worker)
  worker_round malloc table serialize r w =
      if not r.message.is_completed
      then (do
        request ← read_and_parse_response malloc r.stale r.input w
        answer_request table r.message request)
      else (do
        jval ← message_json w.jval_freed r.message
        ret (answer_completed serialize r.message w jval))

  -- The loop, until the queue is gone.
  unfoldable pub worker_listener_loop :
      Malloc
      → List (Bytes × Callback F)
      → (List (Call F) → Option Bytes)
      → List (Round F)
      → Worker
      → Outcome (List (List (Action F)) × Worker)
  worker_listener_loop malloc table serialize [] w = ret ([], w)
  worker_listener_loop malloc table serialize (r ∷ rs) w = do
    (actions, w') ← worker_round malloc table serialize r w
    (later, w'') ← worker_listener_loop malloc table serialize rs w'
    ret (actions ∷ later, w'')

abbrev pub fresh_worker : Worker
fresh_worker = record { response = pos 0; is_eof = false; jval_freed = false }
