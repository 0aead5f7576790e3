-- ===== src/Trigger/Codes.antt =====
-- include/trigger.h: the codes; src/trigger.c: the tables that give their names.
pub mod Names
use rpiweatherd.Base.{ℕ, List, [], ◌∷◌, Bytes, codes, str_eq, ◌==◌, if◌then◌else◌}

abbrev pub parse_ok : ℕ
parse_ok = 100

abbrev pub parse_comment_line : ℕ
parse_comment_line = 101

abbrev pub error_eof : ℕ
error_eof = 103

abbrev pub error_out_of_memory : ℕ
error_out_of_memory = 104

abbrev pub error_file_not_found : ℕ
error_file_not_found = 201

abbrev pub error_file_error : ℕ
error_file_error = 202

abbrev pub error_value_syntax : ℕ
error_value_syntax = 301

abbrev pub error_malformed_value : ℕ
error_malformed_value = 304

abbrev pub error_missing_value : ℕ
error_missing_value = 305

abbrev pub error_cond_op_syntax : ℕ
error_cond_op_syntax = 401

abbrev pub error_cond_unknown_op : ℕ
error_cond_unknown_op = 402

abbrev pub error_unknown_action : ℕ
error_unknown_action = 501

abbrev pub error_missing_action : ℕ
error_missing_action = 502

abbrev pub error_target_malformed : ℕ
error_target_malformed = 601

abbrev pub error_target_not_numeric : ℕ
error_target_not_numeric = 602

abbrev pub error_missing_target : ℕ
error_missing_target = 603

abbrev pub error_arguments_not_needed : ℕ
error_arguments_not_needed = 702

abbrev pub type_temp : ℕ
type_temp = 1

abbrev pub type_humid : ℕ
type_humid = 2

abbrev pub cond_eq : ℕ
cond_eq = 1

abbrev pub cond_leq : ℕ
cond_leq = 2

abbrev pub cond_beq : ℕ
cond_beq = 3

abbrev pub cond_less : ℕ
cond_less = 4

abbrev pub cond_more : ℕ
cond_more = 5

abbrev pub cond_neq : ℕ
cond_neq = 6

abbrev pub action_exec : ℕ
action_exec = 100

abbrev pub action_pinup : ℕ
action_pinup = 101

abbrev pub action_pindown : ℕ
action_pindown = 102

-- The rows of a table without its closing row.
abbrev pub Table : Type 0
Table = List (ℕ × Bytes)

abbrev pub cond_op_table : Table
cond_op_table =
    (cond_eq, codes "==")
    ∷ (cond_leq, codes "<=")
    ∷ (cond_beq, codes ">=")
    ∷ (cond_less, codes "<")
    ∷ (cond_more, codes ">")
    ∷ (cond_neq, codes "!=")
    ∷ []

abbrev pub cond_type_table : Table
cond_type_table = (type_humid, codes "%humid%") ∷ (type_temp, codes "%temp%") ∷ []

abbrev pub cond_action_table : Table
cond_action_table =
    (action_exec, codes "exec")
    ∷ (action_pindown, codes "pindown")
    ∷ (action_pinup, codes "pinup")
    ∷ []

-- The loop over a table by the text, which leaves `*value` at 0 if no row fits.
unfoldable pub code_of : Table → Bytes → ℕ
unfolding str_eq
code_of [] part = 0
code_of ((code, text) ∷ rows) part = if str_eq text part then code else code_of rows part

-- The loop over a table by the code.
unfoldable pub text_of : Table → ℕ → Bytes
text_of [] code = codes "UNKN"
text_of ((c, text) ∷ rows) code = if c == code then text else text_of rows code

abbrev pub cond_op_to_str : ℕ → Bytes
cond_op_to_str = text_of cond_op_table

abbrev pub cond_action_to_str : ℕ → Bytes
cond_action_to_str = text_of cond_action_table

abbrev pub cond_type_to_str : ℕ → Bytes
cond_type_to_str = text_of cond_type_table
