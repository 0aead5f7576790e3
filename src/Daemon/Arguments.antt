-- ===== src/Daemon/Arguments.antt =====
-- src/rpiweatherd.c: the loop of main over the options that getopt_long finds.
use rpiweatherd.Base.{
  ℕ, ◌≡◌, ◌↔◌, Bool, true, false, ◌||◌, not, ◌&&◌, All, Option, none, some, List, [], ◌∷◌, ◌==◌,
  if◌then◌else◌, Bytes, arith,
}
use rpiweatherd.CLib.Text.{Malloc, strdup}
use rpiweatherd.Config.{is_unset}
use rpiweatherd.Data.KeyValues.{dup_string}

-- An option's character, `?` if it is unknown, and its argument.
abbrev pub Opt : Type 0
Opt = ℕ × Option Bytes

-- The variables that the options set.
pub record Settings : Type 0 where
  pub config_path : Option Bytes
  pub run_in_foreground : Bool

-- What main does instead of starting.
pub data Errand : Type 0 where
  no_errand : Errand
  generate_config : Bool → Errand
  list_triggers : Errand
  list_devices : Errand
  show_help : Errand

pub data Instruction : Type 0 where
  starts : Settings → Instruction
  exit_success : Errand → Instruction
  exit_failure : Instruction

-- `file_exists` says whether there is a configuration file, and `answer` is what is typed if there
-- is: the file is removed first, or is left alone.
unfoldable pub generate : Bool → ℕ → Instruction
generate file_exists answer =
    if file_exists
    then (if answer == b'y' || answer == b'Y'
        then exit_success (generate_config true)
        else exit_success no_errand)
    else exit_success (generate_config false)

unfoldable pub parse_arguments : Malloc → Bool → ℕ → List Opt → Settings → Instruction
unfolding generate strdup
parse_arguments malloc file_exists answer [] s = starts s
parse_arguments malloc file_exists answer ((opt, optarg) ∷ os) s =
    let with_path : Instruction = elim optarg [
      | none ↦ exit_failure
      | some path ↦
          parse_arguments malloc file_exists answer os
            (record s { config_path = strdup malloc path })
    ] in
    let in_foreground =
      parse_arguments malloc file_exists answer os (record s { run_in_foreground = true }) in
    if opt == b'c'
    then with_path
    else if opt == b'v'
    then exit_success no_errand
    else if opt == b'g'
    then generate file_exists answer
    else if opt == b'f'
    then in_foreground
    else if opt == b't'
    then exit_success list_triggers
    else if opt == b'l'
    then exit_success list_devices
    else if opt == b'h'
    then exit_success show_help
    else exit_failure

-- The options that set a variable.
abbrev pub is_setting : Opt → Bool
is_setting o = o.0 == b'f' || o.0 == b'c' && not (is_unset o.1)

-- The path of the last option that gives one, and whether there is an option for the foreground.
abbrev pub last_path : Malloc → List Opt → Option Bytes → Option Bytes
last_path malloc [] path = path
last_path malloc (o ∷ os) path =
    last_path malloc os (if o.0 == b'c' then dup_string malloc o.1 else path)

abbrev pub in_foreground : List Opt → Bool
in_foreground [] = false
in_foreground (o ∷ os) = o.0 == b'f' || in_foreground os

-- The options let main start exactly if each of them is the one for the foreground or the one for a
-- path, with its argument; then the path is the last one given, or the one of before, and main runs
-- in the foreground if it did before or there is an option for it.
pub parse_arguments_iff :
    (malloc : Malloc) (file_exists : Bool) (answer : ℕ) (os : List Opt) (s t : Settings)
    → (parse_arguments malloc file_exists answer os s ≡ starts t) ↔ (
        All (λ o. is_setting o ≡ true) os
        × (t.config_path ≡ last_path malloc os s.config_path)
        × (t.run_in_foreground ≡ (s.run_in_foreground || in_foreground os)))
unfolding parse_arguments dup_string generate
parse_arguments_iff malloc file_exists answer [] s t = ground arith
parse_arguments_iff malloc file_exists answer ((c, none) ∷ os) s t = ground (
  arith,
  parse_arguments_iff malloc file_exists answer os (record s { run_in_foreground = true }) t,
)
parse_arguments_iff malloc file_exists answer ((c, some path) ∷ os) s t = ground (
  arith,
  parse_arguments_iff malloc file_exists answer os (record s { run_in_foreground = true }) t,
  parse_arguments_iff malloc file_exists answer os (record s { config_path = strdup malloc path })
      t,
)
