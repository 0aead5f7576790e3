-- ===== src/Data/Json/Keys.antt =====
-- The keys of the fields of entries: how long they are, and that they differ for different entries.
use mathlib.Core.Path.{ap₂}
use rpiweatherd.Base.{
  ℕ, suc, Bool-cases, inl, inr, ◌≤◌, ◌≡◌, ◌≢◌, refl, ◌∙◌, ℤ, pos, negsuc, true, false, [], ◌∷◌,
  ◌++◌, ◌==◌, ==_refl, Bytes, length, length-append, str_eq, str_eq_iff, All-map, Free, arith, ret,
}
use rpiweatherd.CLib.Text.{is_digit, strcpy}
use rpiweatherd.CLib.Decimal.{decimal, decimal_ℤ}
use rpiweatherd.CLib.Decimal.Laws.{decimal-digits, decimal_ℤ-injective, IsInt, length-decimal_ℤ}
use rpiweatherd.Data.Json.{field_key, print_key}

-- A common prefix does not count.
pub str_eq-append : (p a b : Bytes) → str_eq (p ++ a) (p ++ b) ≡ str_eq a b
unfolding str_eq
str_eq-append [] a b = refl
str_eq-append (c ∷ p) a b = rw (==_refl c) (str_eq-append p a b)

pub str_eq-field_key :
    (prefix : Bytes) (id : ℤ) (f g : Bytes)
    → str_eq (field_key prefix id f) (field_key prefix id g) ≡ str_eq f g
unfolding str_eq
str_eq-field_key prefix id f g =
    str_eq-append prefix (decimal_ℤ id ++ (b'.' ∷ f)) (decimal_ℤ id ++ (b'.' ∷ g))
    ∙ str_eq-append (decimal_ℤ id) (b'.' ∷ f) (b'.' ∷ g)

-- What stands in front of the first point.
before_point :
    (s t f g : Bytes)
    → Free (λ c. c == b'.') s
    → Free (λ c. c == b'.') t
    → s ++ (b'.' ∷ f) ≡ t ++ (b'.' ∷ g)
    → s ≡ t
before_point [] [] f g hs ht e = refl
before_point [] (d ∷ t) f g hs ht e = ground arith
before_point (c ∷ s) [] f g hs ht e = ground arith
before_point (c ∷ s) (d ∷ t) f g hs ht e =
    let heads : c ≡ d = cc e in
    let tails : s ++ (b'.' ∷ f) ≡ t ++ (b'.' ∷ g) = cc e in
    ap₂ ◌∷◌ heads (before_point s t f g hs.1 ht.1 tails)

digit_not_point : (c : ℕ) → is_digit c ≡ true → (c == b'.') ≡ false
unfolding is_digit
digit_not_point c h = ground arith

decimal-Free : (n : ℕ) → Free (λ c. c == b'.') (decimal n)
decimal-Free n =
    All-map (λ c. is_digit c ≡ true) (λ c. (c == b'.') ≡ false) (decimal n) digit_not_point
      (decimal-digits n)

decimal_ℤ-Free : (z : ℤ) → Free (λ c. c == b'.') (decimal_ℤ z)
unfolding decimal_ℤ
decimal_ℤ-Free (pos n) = decimal-Free n
decimal_ℤ-Free (negsuc n) = (refl, decimal-Free (suc n))

-- Different entries have different keys.
pub field_key-ne :
    (prefix : Bytes) (a b : ℤ) (f g : Bytes)
    → a ≢ b
    → str_eq (field_key prefix a f) (field_key prefix b g) ≡ false
unfolding str_eq
field_key-ne prefix a b f g ne =
    str_eq-append prefix (decimal_ℤ a ++ (b'.' ∷ f)) (decimal_ℤ b ++ (b'.' ∷ g)) ∙ differ
  where
    differ : str_eq (decimal_ℤ a ++ (b'.' ∷ f)) (decimal_ℤ b ++ (b'.' ∷ g)) ≡ false
    differ = elim (Bool-cases (str_eq (decimal_ℤ a ++ (b'.' ∷ f)) (decimal_ℤ b ++ (b'.' ∷ g)))) [
      | inr no_match ↦ no_match
      | inl match ↦ absurd (
          ne (
            decimal_ℤ-injective a b (
              before_point (decimal_ℤ a) (decimal_ℤ b) f g (decimal_ℤ-Free a) (decimal_ℤ-Free b)
                ((str_eq_iff (decimal_ℤ a ++ (b'.' ∷ f)) (decimal_ℤ b ++ (b'.' ∷ g))).0 match))))
    ]

-- A key with a short field fits its buffer.
pub print_key-field_key :
    (prefix : Bytes) (id : ℤ) (field : Bytes)
    → IsInt id
    → length prefix ≤ 8
    → length field ≤ 11
    → print_key (field_key prefix id field) ≡ ret (field_key prefix id field)
unfolding print_key strcpy
print_key-field_key prefix id field int p f = ground (
  arith,
  length-decimal_ℤ id int,
  length-append prefix (decimal_ℤ id ++ (b'.' ∷ field)),
  length-append (decimal_ℤ id) (b'.' ∷ field),
)
