-- ===== src/Trigger/Codes/Names.antt =====
-- The tables of operations and actions: a name's code has that name, and a code's name that code.
use rpiweatherd.Base.{ℕ, zero, suc, ◌≤◌, ◌≡◌, refl, Bytes, codes, str_eq_iff, arith}
use rpiweatherd.Trigger.Codes.{code_of, text_of, cond_op_table, cond_op_to_str}

pub code_of-cond_op :
    (op : ℕ) (part : Bytes)
    → code_of cond_op_table part ≡ suc op
    → (cond_op_to_str (suc op) ≡ part) × (suc op ≤ 6)
unfolding code_of text_of
code_of-cond_op op part h = ground (
  arith,
  str_eq_iff (codes "==") part,
  str_eq_iff (codes "<=") part,
  str_eq_iff (codes ">=") part,
  str_eq_iff (codes "<") part,
  str_eq_iff (codes ">") part,
  str_eq_iff (codes "!=") part,
)

pub cond_op-code_of :
    (op : ℕ) → suc op ≤ 6 → code_of cond_op_table (cond_op_to_str (suc op)) ≡ suc op
unfolding code_of text_of
cond_op-code_of zero h = refl
cond_op-code_of (suc zero) h = refl
cond_op-code_of (suc (suc zero)) h = refl
cond_op-code_of (suc (suc (suc zero))) h = refl
cond_op-code_of (suc (suc (suc (suc zero)))) h = refl
cond_op-code_of (suc (suc (suc (suc (suc zero))))) h = refl
cond_op-code_of (suc (suc (suc (suc (suc (suc op)))))) h = absurd (omega arith)
