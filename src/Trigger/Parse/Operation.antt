-- ===== src/Trigger/Parse/Operation.antt =====
-- What parse_cond_op accepts.
use rpiweatherd.Base.{ℕ, zero, suc, ◌≤◌, ◌≡◌, ◌↔◌, some, Bytes, arith, length}
use rpiweatherd.Trigger.Codes.{parse_ok, text_of, cond_op_to_str}
use rpiweatherd.Trigger.Codes.Names.{code_of-cond_op, cond_op-code_of}
use rpiweatherd.Trigger.Parse.{parse_cond_op}

accepted :
    (part : Bytes) (op : ℕ)
    → parse_cond_op (some part) ≡ (parse_ok, op)
    → (cond_op_to_str op ≡ part) × (1 ≤ op) × (op ≤ 6)
unfolding parse_cond_op
accepted part zero h = absurd (refused h)
  where
    refused : parse_cond_op (some part) ≡ (parse_ok, 0) → ⊥
    refused h = ground arith
accepted part (suc op) h = ground (arith, code_of-cond_op op part)

short : (op : ℕ) → suc op ≤ 6 → length (cond_op_to_str (suc op)) ≤ 2
unfolding text_of
short op h = ground arith

-- A part is accepted with an operation exactly if the operation is one of the six, and the part is
-- the name under which it is listed.
pub parse_cond_op_iff :
    (part : Bytes) (op : ℕ)
    → (parse_cond_op (some part) ≡ (parse_ok, op))
      ↔ ((cond_op_to_str op ≡ part) × (1 ≤ op) × (op ≤ 6))
unfolding parse_cond_op
parse_cond_op_iff part op = (accepted part op, accepts op)
  where
    accepts :
        (o : ℕ)
        → (cond_op_to_str o ≡ part) × (1 ≤ o) × (o ≤ 6)
        → parse_cond_op (some part) ≡ (parse_ok, o)
    accepts zero h = absurd (omega arith)
    accepts (suc o) h = ground (arith, cond_op-code_of o, short o)
