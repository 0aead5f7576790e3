-- ===== src/Data/Release.antt =====
-- src/datastructures.c: what frees entries, lists of entries and lists of pairs. A structure is
-- known by the address of its block and the pointers that it holds.
pub mod Frees
use rpiweatherd.Base.{
  ℕ, zero, suc, Option, none, some, List, [], ◌∷◌, Outcome, ret, fault, uninitialised, ◌>>=◌,
}
use rpiweatherd.CLib.Heap.{Ptr, Live, free, load}

pub record EntryPtrs : Type 0 where
  pub record_date : Ptr
  pub location : Ptr
  pub device_name : Ptr

pub record EntryListPtrs : Type 0 where
  pub address : ℕ
  pub size : ℕ
  pub entries : ℕ
  pub items : List EntryPtrs

pub record KeyValuePairPtrs : Type 0 where
  pub key : Ptr
  pub value : Ptr

pub record KeyValueListPtrs : Type 0 where
  pub address : ℕ
  pub length : ℕ
  pub pairs : ℕ
  pub items : List KeyValuePairPtrs

-- `free(at->field)`.
abbrev pub free_field : ℕ → Ptr → Live → Outcome Live
free_field at p = load at (free p)

-- The entry lies in the block at `at`, alone or as one of an array.
unfoldable pub entry_free : ℕ → EntryPtrs → Live → Outcome Live
unfolding free load
entry_free at ent live = do
  live₁ ← free_field at ent.record_date live
  live₂ ← free_field at ent.location live₁
  free_field at ent.device_name live₂

unfoldable pub entry_ptr_free : ℕ → EntryPtrs → Live → Outcome Live
unfolding entry_free
entry_ptr_free at ent live = do live' ← entry_free at ent live; free (some at) live'

-- The loop over the first entries of an array, none of which is unwritten.
unfoldable pub free_entries : ℕ → ℕ → List EntryPtrs → Live → Outcome Live
unfolding entry_free
free_entries at zero items live = ret live
free_entries at (suc n) [] live = fault uninitialised
free_entries at (suc n) (ent ∷ items) live = do
  live' ← entry_free at ent live
  free_entries at n items live'

unfoldable pub entrylist_free : EntryListPtrs → Live → Outcome Live
unfolding free_entries
entrylist_free listptr live = do
  live₁ ← load listptr.address (free_entries listptr.entries listptr.size listptr.items) live
  live₂ ← free_field listptr.address (some listptr.entries) live₁
  free (some listptr.address) live₂

-- `if (at->field) free(at->field);`
unfoldable pub free_unless_null : ℕ → Ptr → Live → Outcome Live
unfolding free load
free_unless_null at none = load at ret
free_unless_null at (some p) = load at (free (some p))

unfoldable pub key_value_pair_free : ℕ → KeyValuePairPtrs → Live → Outcome Live
unfolding free_unless_null
key_value_pair_free at pair live = do
  live' ← free_unless_null at pair.key live
  free_unless_null at pair.value live'

unfoldable pub free_pairs : ℕ → ℕ → List KeyValuePairPtrs → Live → Outcome Live
unfolding key_value_pair_free
free_pairs at zero items live = ret live
free_pairs at (suc n) [] live = fault uninitialised
free_pairs at (suc n) (pair ∷ items) live = do
  live' ← key_value_pair_free at pair live
  free_pairs at n items live'

-- The array of the pairs is not freed.
unfoldable pub key_value_list_free : KeyValueListPtrs → Live → Outcome Live
unfolding free_pairs
key_value_list_free list live = do
  live' ← load list.address (free_pairs list.pairs list.length list.items) live
  free (some list.address) live'
