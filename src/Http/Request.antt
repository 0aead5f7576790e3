-- ===== src/Http/Request.antt =====
-- src/http.c: break_request, which cuts a request line into command, arguments and protocol.
pub mod Print
pub mod RoundTrip
pub mod Bounds
use rpiweatherd.Base.{
  ℕ, ℤ, ◌||◌, Bool, Option, none, some, [], ◌==◌, if◌then◌else◌, Bytes, codes, str_eq, Outcome, ret,
  ◌>>=◌,
}
use rpiweatherd.CLib.Text.{strcpy}
use rpiweatherd.CLib.Token.{strtok}
use rpiweatherd.Http.Codes.{http_command_max_size, http_proto_max_size, http_args_max_size}
use rpiweatherd.Http.Error

-- The returned flag, and what stands in the caller's three buffers, which come zeroed.
pub record Broken : Type 0 where
  pub flag : ℤ
  pub http_proto : Bytes
  pub args : Bytes
  pub commandstr : Bytes

abbrev pub is_space : ℕ → Bool
is_space c = c == b' '

abbrev pub is_command_delim : ℕ → Bool
is_command_delim c = c == b' ' || (c == b'/' || c == b'?')

unfoldable pub is_supported : Bytes → Bool
unfolding str_eq
is_supported proto = str_eq proto (codes "HTTP/1.0") || str_eq proto (codes "HTTP/1.1")

-- The last token is the protocol; the arguments are known.
unfoldable pub break_protocol : Bytes → Bytes → Option Bytes × Bytes → Outcome Broken
unfolding strcpy
break_protocol command args (none, _) =
    ret (record {
      flag = Error.bad_request_format;
      http_proto = [];
      args = args;
      commandstr = command;
    })
break_protocol command args (some p, _) = do
  proto ← strcpy http_proto_max_size p
  ret (record { flag = Error.success; http_proto = proto; args = args; commandstr = command })

-- The token behind the command is the protocol if it names one, else the arguments.
unfoldable pub break_args : Bytes → Option Bytes × Bytes → Outcome Broken
unfolding strcpy strtok break_protocol is_supported
break_args command (none, _) =
    ret
      (record { flag = Error.bad_request_format; http_proto = []; args = []; commandstr = command })
break_args command (some t, rest) =
    if is_supported t
    then (do
      proto ← strcpy http_proto_max_size t
      ret (record { flag = Error.success; http_proto = proto; args = []; commandstr = command }))
    else (do args ← strcpy http_args_max_size t; break_protocol command args (strtok is_space rest))

unfoldable pub break_command : Option Bytes × Bytes → Outcome Broken
unfolding strcpy strtok break_args
break_command (none, _) =
    ret (record { flag = Error.bad_request_format; http_proto = []; args = []; commandstr = [] })
break_command (some t, rest) = do
  command ← strcpy http_command_max_size t
  break_args command (strtok is_space rest)

unfoldable pub break_method : Option Bytes × Bytes → Outcome Broken
unfolding strtok break_command
break_method (none, _) =
    ret (record { flag = Error.bad_request_format; http_proto = []; args = []; commandstr = [] })
break_method (some _, rest) = break_command (strtok is_command_delim rest)

unfoldable pub break_request : Bytes → Outcome Broken
unfolding strcpy strtok break_method
break_request url = do
  all_line ← strcpy http_command_max_size url
  break_method (strtok is_space all_line)
