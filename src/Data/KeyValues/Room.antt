-- ===== src/Data/KeyValues/Room.antt =====
-- Pairs emplaced where memory and room are available.
use rpiweatherd.Base.{
  ℕ, zero, suc, ◌+◌, ◌-◌, ◌≤◌, ◌≡◌, refl, ap, ◌∙◌, Option, none, some, List, [], ◌∷◌, ◌++◌, map,
  take, length, length-map, Bytes, arith,
}
use rpiweatherd.CLib.Text.{Malloc}
use rpiweatherd.Data.KeyValues.{
  KeyValuePair, KeyValueList, dup_string, key_value_pair_emplace, key_value_list_emplace,
  emplace_all,
}
use rpiweatherd.Data.KeyValues.Bounds.{IsValid, emplaced, emplace_all_lem}
use rpiweatherd.Database.Thread.{pairs_of}
use rpiweatherd.Http.Parser.Parts.{Available, strdup-some}

take_all : {A : Type 0} (n : ℕ) (xs : List A) → length xs ≤ n → take n xs ≡ xs
take_all zero [] h = refl
take_all zero (x ∷ xs) h = ground arith
take_all (suc n) [] h = refl
take_all (suc n) (x ∷ xs) h = ap (◌∷◌ x) (take_all n xs (omega arith))

abbrev pub pair_of : Option Bytes × Option Bytes → KeyValuePair
pair_of (key, value) = record { key = key; value = value }

module _ (malloc : Malloc) (m : Available malloc) where
  dup_string-Available : (s : Option Bytes) → dup_string malloc s ≡ s
  unfolding dup_string
  dup_string-Available none = refl
  dup_string-Available (some s) = strdup-some malloc s m

  emplaced-pair_of : (p : Option Bytes × Option Bytes) → emplaced malloc p ≡ pair_of p
  unfolding key_value_pair_emplace
  emplaced-pair_of (key, value) = rw (dup_string-Available key, dup_string-Available value) refl

  pub map-emplaced :
      (ps : List (Option Bytes × Option Bytes)) → map (emplaced malloc) ps ≡ map pair_of ps
  map-emplaced [] = refl
  map-emplaced (p ∷ ps) = rw (emplaced-pair_of p, map-emplaced ps) refl

  pub map-pairs_of : (ps : List KeyValuePair) → map (emplaced malloc) (pairs_of ps) ≡ ps
  map-pairs_of [] = refl
  map-pairs_of (p ∷ ps) = rw (emplaced-pair_of (p.key, p.value), map-pairs_of ps) refl

pub length-pairs_of : (ps : List KeyValuePair) → length (pairs_of ps) ≡ length ps
length-pairs_of [] = refl
length-pairs_of (p ∷ ps) = ap suc (length-pairs_of ps)

pub emplace_all-capacity :
    (malloc : Malloc) (ps : List (Option Bytes × Option Bytes)) (list : KeyValueList)
    → (emplace_all malloc ps list).capacity ≡ list.capacity
unfolding emplace_all key_value_list_emplace
emplace_all-capacity malloc [] list = refl
emplace_all-capacity malloc ((key, value) ∷ ps) list =
    emplace_all-capacity malloc ps (key_value_list_emplace malloc list key value).1 ∙ ground arith

-- A list of enough room keeps what is emplaced.
pub emplace_all_room :
    (malloc : Malloc) (ps : List (Option Bytes × Option Bytes)) (list : KeyValueList)
    → IsValid list
    → list.length + length ps ≤ list.capacity
    → ((emplace_all malloc ps list).pairs ≡ list.pairs ++ map (emplaced malloc) ps)
      × IsValid (emplace_all malloc ps list)
emplace_all_room malloc ps list valid room =
    let (pairs, valid') = emplace_all_lem malloc ps list valid in
    let all =
      take_all (list.capacity - list.length) (map (emplaced malloc) ps)
        (omega (arith, length-map (emplaced malloc) ps)) in
    (pairs ∙ ap (◌++◌ list.pairs) all, valid')
