-- ===== src/Http/Params.antt =====
-- src/http.c: the parameters of a command, parse_http_param and http_cmd_param_count.
pub mod Distinct
use rpiweatherd.Base.{
  ℕ, ◌+◌, Bool, true, false, Option, none, some, List, [], ◌∷◌, ◌==◌, ltb, if◌then◌else◌, Bytes,
  take, Outcome, ret, fault, null_pointer, ◌>>=◌,
}
use rpiweatherd.CLib.Text.{Malloc, strdup, strcmp_eq}
use rpiweatherd.CLib.Token.{strtok}

pub record HttpCmdParam : Type 0 where
  pub name : Option Bytes
  pub value : Option Bytes

-- `length` counts the entries of the array `params` that are in use.
pub record HttpCmd : Type 0 where
  pub cmdname : Bytes
  pub length : ℕ
  pub params : List HttpCmdParam

abbrev pub used : HttpCmd → List HttpCmdParam
used cmd = take cmd.length cmd.params

abbrev pub is_equals : ℕ → Bool
is_equals c = c == b'='

abbrev pub is_ampersand : ℕ → Bool
is_ampersand c = c == b'&'

-- A copy of the token, or NULL where there is none.
abbrev pub dup_token : Malloc → Option Bytes → Option Bytes
dup_token malloc none = none
dup_token malloc (some t) = strdup malloc t

-- `strlen` on a null pointer faults.
unfoldable pub parse_http_param : Malloc → Option Bytes → Outcome HttpCmdParam
unfolding strtok strdup
parse_http_param malloc none = fault null_pointer
parse_http_param malloc (some paramstr) =
    let (part, rest) = strtok is_equals paramstr in
    ret
      (record { name = dup_token malloc part; value = dup_token malloc (strtok is_equals rest).0 })

-- The loop over the array.
unfoldable pub count_params : List HttpCmdParam → Option Bytes → Outcome ℕ
unfolding strcmp_eq
count_params [] name = ret 0
count_params (p ∷ ps) name = do
  same ← strcmp_eq p.name name
  count ← count_params ps name
  ret (if same then count + 1 else count)

unfoldable pub http_cmd_param_count : HttpCmd → Option Bytes → Outcome ℕ
unfolding count_params
http_cmd_param_count cmd name = count_params (used cmd) name

-- The check for duplicate parameters, from the parameters `ps` on.
unfoldable pub check_duplicates : HttpCmd → List HttpCmdParam → Outcome Bool
unfolding http_cmd_param_count
check_duplicates cmd [] = ret false
check_duplicates cmd (p ∷ ps) = do
  count ← http_cmd_param_count cmd p.name
  let rest = check_duplicates cmd ps
  if ltb 1 count then ret true else rest
