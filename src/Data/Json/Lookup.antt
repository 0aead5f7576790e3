-- ===== src/Data/Json/Lookup.antt =====
-- The values of names in the calls on an object.
use mathlib.Core.Path.{ap₂}
use rpiweatherd.Base.{
  ◌≡◌, refl, ℤ, false, Option, none, some, List, [], ◌∷◌, ◌++◌, if◌then◌else◌, Bytes, str_eq, All,
}
use rpiweatherd.Data.Json.{Value, Call, stored, lookup, dotset_call, field_key}
use rpiweatherd.Data.Json.Keys.{str_eq-field_key}

module _ {F : Type 0} where
  -- The later calls win.
  pub lookup-append_some :
      (name : Bytes) (xs ys : List (Call F)) {v : Value F}
      → lookup name ys ≡ some v
      → lookup name (xs ++ ys) ≡ some v
  unfolding lookup
  lookup-append_some name [] ys h = h
  lookup-append_some name (c ∷ xs) ys h = rw (lookup-append_some name xs ys h) refl

  pub lookup-append_none :
      (name : Bytes) (xs ys : List (Call F))
      → lookup name ys ≡ none
      → lookup name (xs ++ ys) ≡ lookup name xs
  unfolding lookup
  lookup-append_none name [] ys h = h
  lookup-append_none name (c ∷ xs) ys h = rw (lookup-append_none name xs ys h) refl

  -- A name that no call has.
  pub lookup-none :
      (name : Bytes) (cs : List (Call F))
      → All (λ c. str_eq c.name name ≡ false) cs
      → lookup name cs ≡ none
  unfolding lookup
  lookup-none name [] h = refl
  lookup-none name (c ∷ cs) h = rw (lookup-none name cs h.1, h.0) refl

  -- The calls for the fields of one entry.
  abbrev pub field_calls : Bytes → ℤ → List (Bytes × Value F) → List (Call F)
  field_calls prefix id [] = []
  field_calls prefix id ((f, v) ∷ fields) =
      dotset_call (field_key prefix id f) v ∷ field_calls prefix id fields

  -- The last value of a field that is stored.
  unfoldable pub field_value : Bytes → List (Bytes × Value F) → Option (Value F)
  unfolding str_eq stored
  field_value f [] = none
  field_value f ((g, v) ∷ fields) = elim (field_value f fields) [
    | some value ↦ some value
    | none ↦ if str_eq g f then stored v else none
  ]

  pub lookup-field_calls :
      (prefix : Bytes) (id : ℤ) (f : Bytes) (fields : List (Bytes × Value F))
      → lookup (field_key prefix id f) (field_calls prefix id fields) ≡ field_value f fields
  unfolding lookup field_value
  lookup-field_calls prefix id f [] = refl
  lookup-field_calls prefix id f ((g, v) ∷ fields) =
      ap₂
        (λ o b. elim o as (λ _. Option (Value F)) [
          | some value ↦ some value
          | none ↦ if b then stored v else none
        ])
        (lookup-field_calls prefix id f fields) (str_eq-field_key prefix id g f)
