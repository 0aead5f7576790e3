-- ===== src/Trigger/Floats.antt =====
-- What the triggers use of `float` and of the texts that stand for one. `F` is the type of floats.
use rpiweatherd.Base.{ℕ, Bool, Bytes}

pub record Floats (F : Type 0) : Type 0 where
  -- strtod: the value, the offset of the first byte that is not read, and whether the call sets
  -- errno to ERANGE.
  pub strtod : Bytes → F
  pub strtod_end : Bytes → ℕ
  pub strtod_erange : Bytes → Bool
  pub is_zero : F → Bool
  pub eq : F → F → Bool
  pub lt : F → F → Bool
  pub le : F → F → Bool
  -- `x * 1.8f + 32`.
  pub to_farenheit : F → F
  -- "%.4f".
  pub print4 : F → Bytes
