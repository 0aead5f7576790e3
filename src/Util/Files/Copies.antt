-- ===== src/Util/Files/Copies.antt =====
-- A file is copied whole exactly where the status says so.
use rpiweatherd.Base.{
  ℕ, ◌≤◌, ◌≡◌, ◌≢◌, ◌⊎◌, ℤ, pos, neg, Option, none, some, [], ◌++◌, Bytes, length, take,
}
use rpiweatherd.Util.Files.{Fread}

-- fread delivers, and fwrite accepts, no more than there is.
abbrev pub AtMost : (ℕ → ℕ → ℕ) → Type 0
AtMost f = (offset n : ℕ) → f offset n ≤ n

-- What a copy from `whole` ends with: the bytes that were accepted are the first ones of the source.
-- The status is 1 where they are all, or where fread delivered nothing of those that are left, as at
-- an error; it is -1 where fwrite did not accept all that it was given.
pub record Copied (fread : Fread) (size : ℕ) (whole : Bytes) (status : ℤ) (accepted : Bytes)
    : Type 0 where
  pub rest : Bytes
  pub first_ones : accepted ++ rest ≡ whole
  pub ends :
      ((status ≡ pos 1) × (accepted ≡ whole))
      ⊎ (((status ≡ pos 1) × (rest ≢ []) × (fread (length accepted) (length (take size rest)) ≡ 0))
          ⊎ ((status ≡ neg 1) × (rest ≢ [])))

CopiedSome : Fread → ℕ → Bytes → Option (ℤ × Bytes) → Type 0
CopiedSome fread size whole none = ⊥
CopiedSome fread size whole (some (status, accepted)) = Copied fread size whole status accepted
