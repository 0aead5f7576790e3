-- ===== src/Data/KeyValues.antt =====
-- src/datastructures.c: key_value_pair and key_value_list.
pub mod Bounds
pub mod Room
use rpiweatherd.Base.{
  ℕ, ◌+◌, ◌*◌, ℤ, pos, neg, Bool, Option, none, some, List, [], ◌∷◌, ◌++◌, ltb, if◌then◌else◌,
  Bytes,
}
use rpiweatherd.CLib.Text.{Malloc, strdup}

pub record KeyValuePair : Type 0 where
  pub key : Option Bytes
  pub value : Option Bytes

-- The pairs in use, which are the first `length` entries of an array of `capacity`.
pub record KeyValueList : Type 0 where
  pub length : ℕ
  pub capacity : ℕ
  pub pairs : List KeyValuePair

-- sizeof(key_value_list) and sizeof(key_value_pair) with pointers of 32 bits.
abbrev pub sizeof_key_value_list : ℕ
sizeof_key_value_list = 12

abbrev pub sizeof_key_value_pair : ℕ
sizeof_key_value_pair = 8

-- A copy of a string that may be NULL.
unfoldable pub dup_string : Malloc → Option Bytes → Option Bytes
dup_string malloc none = none
dup_string malloc (some s) = strdup malloc s

unfoldable pub key_value_pair_emplace : Malloc → Option Bytes → Option Bytes → KeyValuePair
unfolding dup_string
key_value_pair_emplace malloc key value = record {
  key = dup_string malloc key;
  value = dup_string malloc value;
}

unfoldable pub key_value_list_alloc : Malloc → ℕ → Option KeyValueList
key_value_list_alloc malloc max_items =
    if malloc sizeof_key_value_list
    then (if malloc (sizeof_key_value_pair * max_items)
        then some (record { length = 0; capacity = max_items; pairs = [] })
        else none)
    else none

-- The code 1, or -1 where there is no room, and the list.
unfoldable pub key_value_list_emplace :
    Malloc → KeyValueList → Option Bytes → Option Bytes → ℤ × KeyValueList
unfolding key_value_pair_emplace
key_value_list_emplace malloc list key value =
    if ltb list.capacity (list.length + 1) then (neg 1, list) else (
      pos 1,
      record list {
        length = list.length + 1;
        pairs = list.pairs ++ (key_value_pair_emplace malloc key value ∷ []);
      },
    )

-- Pairs emplaced one after the other, their codes ignored, as the callbacks do.
unfoldable pub emplace_all :
    Malloc → List (Option Bytes × Option Bytes) → KeyValueList → KeyValueList
emplace_all malloc [] list = list
emplace_all malloc ((key, value) ∷ rest) list =
    emplace_all malloc rest (key_value_list_emplace malloc list key value).1
