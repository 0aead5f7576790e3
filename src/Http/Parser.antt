-- ===== src/Http/Parser.antt =====
-- src/http.c: parse_http_request.
pub mod Parts
pub mod RoundTrip
pub mod Safety
use rpiweatherd.Base.{
  ℕ, ℤ, zero, suc, ◌+◌, ◌*◌, ◌-◌, Option, none, some, List, [], ◌∷◌, ◌==◌, is_neg, if◌then◌else◌,
  Bytes, length, take, Outcome, ret, fault, null_pointer, ◌>>=◌, not,
}
use rpiweatherd.CLib.Text.{Malloc, strdup}
use rpiweatherd.CLib.Token.{strtok}
use rpiweatherd.Util.Lines.{rpiwd_getline, crlf}
use rpiweatherd.Http.Error
use rpiweatherd.Http.Request.{is_supported, break_request}
use rpiweatherd.Http.Params.{
  HttpCmdParam, HttpCmd, is_ampersand, parse_http_param, check_duplicates,
}

-- The command, or NULL, and what is left in `*response`.
abbrev pub Parsed : Type 0
Parsed = Option HttpCmd × ℤ

-- sizeof(http_cmd) and sizeof(http_cmd_param).
abbrev pub sizeof_http_cmd : ℕ
sizeof_http_cmd = 12

abbrev pub sizeof_http_cmd_param : ℕ
sizeof_http_cmd_param = 8

unfoldable pub count_ampersands : Bytes → ℕ
count_ampersands [] = 0
count_ampersands (c ∷ s) = (if c == b'&' then 1 else 0) + count_ampersands s

-- The test that ends the loop, on the next part; `parse_rest` is the rest of the loop.
unfoldable pub continue_parts :
    (Option Bytes → Bytes → Outcome (List HttpCmdParam))
    → HttpCmdParam
    → Option Bytes × Bytes
    → Outcome (List HttpCmdParam)
continue_parts parse_rest p (none, _) = ret (p ∷ [])
continue_parts parse_rest p (some next, rest) = do ps ← parse_rest (some next) rest; ret (p ∷ ps)

-- The do-while loop: one parameter for the part at hand, then those of the parts that follow.
-- Fuel above the length of the text that is left is enough.
unfoldable pub parse_parts : Malloc → ℕ → Option Bytes → Bytes → Outcome (List HttpCmdParam)
parse_parts malloc zero part rest = do p ← parse_http_param malloc part; ret (p ∷ [])
parse_parts malloc (suc fuel) part rest = do
  p ← parse_http_param malloc part
  continue_parts (parse_parts malloc fuel) p (strtok is_ampersand rest)

abbrev pub parse_all_parts : Malloc → Bytes → Outcome (List HttpCmdParam)
parse_all_parts malloc args =
    let (part, rest) = strtok is_ampersand args in parse_parts malloc (length args) part rest

-- No ampersand: a single parameter, or none.
unfoldable pub parse_single : Malloc → Bytes → Bytes → Outcome HttpCmd
parse_single malloc cmdname args = do
  p ← parse_http_param malloc (some args)
  ret (record {
    cmdname = cmdname;
    length = elim p.name [ none ↦ 0 | some _ ↦ 1 ];
    params = p ∷ [];
  })

-- The length that the code gives to `cmd_iter` parts of a text with `actual_count` ampersands,
-- and the array, which is cut down where the two do not fit. `realloc` to 0 bytes frees the array and
-- returns NULL, as that of glibc does. If `realloc` fails for more, http_cmd_free reads the parameters
-- of the command through the NULL that is now its array.
unfoldable pub fit_params : Malloc → Bytes → ℕ → List HttpCmdParam → Outcome (Option HttpCmd)
fit_params malloc cmdname actual_count ps =
    let cmd_iter = length ps in
    if not (cmd_iter - 1 == actual_count)
    then (if cmd_iter - 1 == 0
        then ret none
        else if malloc (sizeof_http_cmd_param * (cmd_iter - 1))
        then ret (
            some (record {
              cmdname = cmdname;
              length = cmd_iter - 1;
              params = take (cmd_iter - 1) ps;
            }))
        else fault null_pointer)
    else ret (some (record { cmdname = cmdname; length = cmd_iter; params = ps }))

unfoldable pub parse_params : Malloc → Bytes → Bytes → Outcome (Option HttpCmd)
unfolding parse_single fit_params
parse_params malloc cmdname args =
    let actual_count = count_ampersands args in
    if actual_count == 0
    then (do cmd ← parse_single malloc cmdname args; ret (some cmd))
    else (do ps ← parse_all_parts malloc args; fit_params malloc cmdname actual_count ps)

-- The last check, on a command that was built.
unfoldable pub reject_duplicates : ℤ → Option HttpCmd → Outcome Parsed
reject_duplicates response none = ret (none, Error.no_memory)
reject_duplicates response (some cmd) = do
  duplicate ← check_duplicates cmd (take cmd.length cmd.params)
  ret (if duplicate then (none, Error.duplicate_params) else (some cmd, response))

-- From the allocation of the command on.
unfoldable pub build_command : Malloc → ℤ → Bytes → Bytes → Outcome Parsed
build_command malloc response commandstr args =
    if not (malloc sizeof_http_cmd)
    then ret (none, Error.no_memory)
    else elim (strdup malloc commandstr) [
      | none ↦ ret (none, Error.no_memory)
      | some cmdname ↦
          if not (malloc (sizeof_http_cmd_param * (count_ampersands args + 1)))
          then ret (none, Error.no_memory)
          else (do cmd ← parse_params malloc cmdname args; reject_duplicates response cmd)
    ]

-- From the request line on.
unfoldable pub parse_line : Malloc → ℤ → Bytes → Outcome Parsed
parse_line malloc response line = do
  b ← break_request line
  if is_neg b.flag
      then ret (none, b.flag)
      else if not (is_supported b.http_proto)
      then ret (none, Error.wrong_protocol)
      else build_command malloc response b.commandstr b.args

-- A request with no line returns NULL and leaves `*response` as it was.
unfoldable pub parse_http_request : Malloc → Bytes → ℤ → Outcome Parsed
parse_http_request malloc request response = elim (rpiwd_getline malloc request crlf) [
  | none ↦ ret (none, response)
  | some line ↦ parse_line malloc response line
]
