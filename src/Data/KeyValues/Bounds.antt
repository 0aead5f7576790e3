-- ===== src/Data/KeyValues/Bounds.antt =====
-- A list of pairs is a queue with a bound: it keeps what fits, in order.
use rpiweatherd.Base.{
  ℕ, zero, suc, ◌+◌, ◌-◌, ◌≤◌, ◌≡◌, refl, Option, List, [], ◌∷◌, ◌++◌, ltb, Bytes, length, take,
  map, arith, length-append, Bool-cases, inl, inr, ltb→lt, ltb→le, ap, sym, ◌∙◌,
}
use rpiweatherd.CLib.Text.{Malloc}
use rpiweatherd.Data.KeyValues.{
  KeyValuePair, KeyValueList, key_value_pair_emplace, key_value_list_emplace, emplace_all,
}

-- The length counts the pairs, and they fit.
pub record IsValid (list : KeyValueList) : Type 0 where
  pub counted : length list.pairs ≡ list.length
  pub fits : list.length ≤ list.capacity

pub key_value_list_emplace-IsValid :
    (malloc : Malloc) (list : KeyValueList) (key value : Option Bytes)
    → IsValid list
    → IsValid (key_value_list_emplace malloc list key value).1
unfolding key_value_list_emplace
key_value_list_emplace-IsValid malloc list key value v =
    ground (arith, length-append {0} list.pairs (key_value_pair_emplace malloc key value ∷ []))

abbrev pub emplaced : Malloc → Option Bytes × Option Bytes → KeyValuePair
emplaced malloc (key, value) = key_value_pair_emplace malloc key value

append_nil : (xs : List KeyValuePair) → xs ++ [] ≡ xs
append_nil [] = refl
append_nil (x ∷ xs) = ap (◌∷◌ x) (append_nil xs)

append_middle :
    (xs : List KeyValuePair) (x : KeyValuePair) (ys : List KeyValuePair)
    → (xs ++ (x ∷ [])) ++ ys ≡ xs ++ (x ∷ ys)
append_middle [] x ys = refl
append_middle (z ∷ xs) x ys = ap (◌∷◌ z) (append_middle xs x ys)

append-take_nil : (xs : List KeyValuePair) (n : ℕ) → xs ++ take n [] ≡ xs
append-take_nil xs zero = append_nil xs
append-take_nil xs (suc n) = append_nil xs

-- The spare room of a list, and what is kept of further pairs.
abbrev kept : Malloc → KeyValueList → List (Option Bytes × Option Bytes) → List KeyValuePair
kept malloc list ps = take (list.capacity - list.length) (map (emplaced malloc) ps)

module _ (malloc : Malloc) (list : KeyValueList) (key value : Option Bytes) where
  emplace_full :
      (ps : List (Option Bytes × Option Bytes))
      → list.capacity ≤ list.length
      → ((key_value_list_emplace malloc list key value).1 ≡ list)
        × (kept malloc list ((key, value) ∷ ps) ≡ [])
        × (kept malloc list ps ≡ [])
  unfolding key_value_list_emplace
  emplace_full ps h =
      let none_left : list.capacity - list.length ≡ 0 = omega arith in
      (ground arith, rw none_left, rw none_left)

  emplace_room :
      (ps : List (Option Bytes × Option Bytes))
      → list.length + 1 ≤ list.capacity
      → ((key_value_list_emplace malloc list key value).1.pairs
          ≡ list.pairs ++ (key_value_pair_emplace malloc key value ∷ []))
        × (kept malloc list ((key, value) ∷ ps)
            ≡ key_value_pair_emplace malloc key value
              ∷ kept malloc (key_value_list_emplace malloc list key value).1 ps)
  unfolding key_value_list_emplace
  emplace_room ps h =
      let room : list.capacity - list.length ≡ suc (list.capacity - (list.length + 1)) =
        omega arith in
      (ground arith, rw room (ground arith))

-- Pairs emplaced in a row into a list whose length counts its pairs, within its capacity, follow
-- those that the list held, as many of them as there is room for; the rest are dropped, and the
-- length still counts the pairs, within the capacity.
pub emplace_all_lem :
    (malloc : Malloc) (ps : List (Option Bytes × Option Bytes)) (list : KeyValueList)
    → IsValid list
    → ((emplace_all malloc ps list).pairs
        ≡ list.pairs ++ take (list.capacity - list.length) (map (emplaced malloc) ps))
      × IsValid (emplace_all malloc ps list)
unfolding emplace_all
emplace_all_lem malloc [] list v =
    (sym (append-take_nil list.pairs (list.capacity - list.length)), v)
emplace_all_lem malloc ((key, value) ∷ ps) list v =
    let next = (key_value_list_emplace malloc list key value).1 in
    let (later, valid) =
      emplace_all_lem malloc ps next (key_value_list_emplace-IsValid malloc list key value v) in
    elim (Bool-cases (ltb list.length list.capacity)) [
      | inl room ↦
          let (p, k) = emplace_room malloc list key value ps (omega (arith, ltb→lt _ _ room)) in
          (
            later
                ∙ ap (λ u. u ++ kept malloc next ps) p
                ∙ append_middle list.pairs _ _
                ∙ ap (◌++◌ list.pairs) (sym k),
            valid,
          )
      | inr full ↦
          let (same, k, k') =
            emplace_full malloc list key value ps (omega (arith, ltb→le _ _ full)) in
          (
            later ∙ ap (λ l. l.pairs ++ kept malloc l ps) same ∙ ap (◌++◌ list.pairs) (k' ∙ sym k),
            valid,
          )
    ]
