-- ===== src/CLib/Token.antt =====
-- strtok_r. The save pointer is the text that is left; a call with no token leaves none.
use rpiweatherd.Base.{
  arith, ◌≤◌, ◌<◌, length, ℕ, ◌≢◌, Bool, true, ◌≡◌, refl, Option, none, some, [], ◌∷◌, ◌++◌,
  if◌then◌else◌, Bytes, All, Free,
}

unfoldable pub skip : (ℕ → Bool) → Bytes → Bytes
skip p [] = []
skip p (c ∷ s) = if p c then skip p s else c ∷ s

unfoldable pub take_until : (ℕ → Bool) → Bytes → Bytes
take_until p [] = []
take_until p (c ∷ s) = if p c then [] else c ∷ take_until p s

-- What follows the first delimiter.
unfoldable pub drop_after : (ℕ → Bool) → Bytes → Bytes
drop_after p [] = []
drop_after p (c ∷ s) = if p c then s else drop_after p s

-- The token that begins a text with no leading delimiter, and the text behind it.
unfoldable pub split_token : (ℕ → Bool) → Bytes → Option Bytes × Bytes
unfolding take_until drop_after
split_token p [] = (none, [])
split_token p (c ∷ r) = (some (c ∷ take_until p r), drop_after p r)

-- One call: the token, and the text that the save pointer is left at.
unfoldable pub strtok : (ℕ → Bool) → Bytes → Option Bytes × Bytes
unfolding skip split_token
strtok p s = split_token p (skip p s)

pub skip-append :
    (p : ℕ → Bool) (d s : Bytes) → All (λ c. p c ≡ true) d → skip p (d ++ s) ≡ skip p s
unfolding skip
skip-append p [] s h = refl
skip-append p (c ∷ d) s h = rw (h.0) (skip-append p d s h.1)

pub take_until-append :
    (p : ℕ → Bool) (t : Bytes) (d : ℕ) (s : Bytes)
    → Free p t
    → p d ≡ true
    → take_until p (t ++ (d ∷ s)) ≡ t
unfolding take_until
take_until-append p [] d s f h = rw h
take_until-append p (c ∷ t) d s f h = rw (f.0) (rw (take_until-append p t d s f.1 h))

pub drop_after-append :
    (p : ℕ → Bool) (t : Bytes) (d : ℕ) (s : Bytes)
    → Free p t
    → p d ≡ true
    → drop_after p (t ++ (d ∷ s)) ≡ s
unfolding drop_after
drop_after-append p [] d s f h = rw h
drop_after-append p (c ∷ t) d s f h = rw (f.0) (drop_after-append p t d s f.1 h)

pub take_until_self : (p : ℕ → Bool) (t : Bytes) → Free p t → take_until p t ≡ t
unfolding take_until
take_until_self p [] f = refl
take_until_self p (c ∷ t) f = rw (f.0) (rw (take_until_self p t f.1))

pub drop_after_self : (p : ℕ → Bool) (t : Bytes) → Free p t → drop_after p t ≡ []
unfolding drop_after
drop_after_self p [] f = refl
drop_after_self p (c ∷ t) f = rw (f.0) (drop_after_self p t f.1)

-- A token that a delimiter ends, behind any number of delimiters.
pub strtok_delimited :
    (p : ℕ → Bool) (d t : Bytes) (e : ℕ) (s : Bytes)
    → All (λ c. p c ≡ true) d
    → t ≢ []
    → Free p t
    → p e ≡ true
    → strtok p (d ++ (t ++ (e ∷ s))) ≡ (some t, s)
unfolding strtok
strtok_delimited p d [] e s hd ne f he = absurd (ne refl)
strtok_delimited p d (c ∷ t) e s hd ne f he =
    rw (strtok, skip-append p d (c ∷ (t ++ (e ∷ s))) hd, skip, f.0)
      (rw (take_until-append p t e s f.1 he, drop_after-append p t e s f.1 he))

-- The last token of the text.
pub strtok_last :
    (p : ℕ → Bool) (d t : Bytes)
    → All (λ c. p c ≡ true) d
    → t ≢ []
    → Free p t
    → strtok p (d ++ t) ≡ (some t, [])
unfolding strtok
strtok_last p d [] hd ne f = absurd (ne refl)
strtok_last p d (c ∷ t) hd ne f =
    rw (strtok, skip-append p d (c ∷ t) hd, skip, f.0)
      (rw (take_until_self p t f.1, drop_after_self p t f.1))

skip-All : (p : ℕ → Bool) (d : Bytes) → All (λ c. p c ≡ true) d → skip p d ≡ []
unfolding skip
skip-All p [] h = refl
skip-All p (c ∷ d) h = rw (h.0) (skip-All p d h.1)

-- Nothing but delimiters.
pub strtok-none : (p : ℕ → Bool) (d : Bytes) → All (λ c. p c ≡ true) d → strtok p d ≡ (none, [])
unfolding strtok
strtok-none p d h = rw (strtok, skip-All p d h)

skip-le : (p : ℕ → Bool) (s : Bytes) → length (skip p s) ≤ length s
unfolding skip
skip-le p [] = omega arith
skip-le p (c ∷ s) = ground (arith, skip-le p s)

drop_after-le : (p : ℕ → Bool) (s : Bytes) → length (drop_after p s) ≤ length s
unfolding drop_after
drop_after-le p [] = omega arith
drop_after-le p (c ∷ s) = ground (arith, drop_after-le p s)

pub take_until-le : (p : ℕ → Bool) (s : Bytes) → length (take_until p s) ≤ length s
unfolding take_until
take_until-le p [] = omega arith
take_until-le p (c ∷ s) = ground (arith, take_until-le p s)

split_token-lt :
    (p : ℕ → Bool) (s : Bytes) {t : Bytes}
    → (split_token p s).0 ≡ some t
    → length (split_token p s).1 < length s
unfolding split_token
split_token-lt p [] h = cc
split_token-lt p (c ∷ r) h = omega (arith, drop_after-le p r)

-- A call that finds a token leaves less text than it was given.
pub strtok-lt :
    (p : ℕ → Bool) (s : Bytes) {t : Bytes}
    → (strtok p s).0 ≡ some t
    → length (strtok p s).1 < length s
unfolding strtok
strtok-lt p s h = omega (arith, split_token-lt p (skip p s) h, skip-le p s)

split_token-le :
    (p : ℕ → Bool) (s : Bytes) {t : Bytes} → (split_token p s).0 ≡ some t → length t ≤ length s
unfolding split_token
split_token-le p [] h = cc
split_token-le p (c ∷ r) h = ground (arith, take_until-le p r)

-- A token is no longer than the text that it is found in.
pub strtok-le :
    (p : ℕ → Bool) (s : Bytes) {t : Bytes} → (strtok p s).0 ≡ some t → length t ≤ length s
unfolding strtok
strtok-le p s h = omega (arith, split_token-le p (skip p s) h, skip-le p s)
