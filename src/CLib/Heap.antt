-- ===== src/CLib/Heap.antt =====
-- malloc'ed blocks and free. A block is known by its address; `live` holds the addresses of the
-- blocks that were allocated and not freed yet.
pub mod Frees
use rpiweatherd.Base.{
  ℕ, suc, Bool, true, false, ◌||◌, Option, none, some, List, [], ◌∷◌, ◌==◌, if◌then◌else◌, Outcome,
  ret, fault, dangling,
}

-- NULL, or the address of a block.
abbrev pub Ptr : Type 0
Ptr = Option ℕ

abbrev pub Live : Type 0
Live = List ℕ

abbrev pub count : ℕ → List ℕ → ℕ
count x [] = 0
count x (y ∷ ys) = let rest = count x ys in if x == y then suc rest else rest

unfoldable pub is_live : ℕ → Live → Bool
is_live x [] = false
is_live x (y ∷ ys) = x == y || is_live x ys

unfoldable pub release : ℕ → Live → Live
release x [] = []
release x (y ∷ ys) = let rest = release x ys in if x == y then ys else y ∷ rest

-- `free(p)`: nothing for NULL, and undefined for what was freed or never allocated.
unfoldable pub free : Ptr → Live → Outcome Live
unfolding is_live release
free none live = ret live
free (some x) live = if is_live x live then ret (release x live) else fault dangling

-- A read or write through a pointer into the block at `x` before `k` goes on.
unfoldable pub load : ℕ → (Live → Outcome Live) → Live → Outcome Live
unfolding is_live
load x k live = if is_live x live then k live else fault dangling
