-- ===== src/Data/Entries.antt =====
-- src/datastructures.c: entries and lists of entries; the floats are of type `F`.
use rpiweatherd.Base.{ℕ, ◌*◌, ℤ, Option, none, some, List, [], if◌then◌else◌, Bytes}
use rpiweatherd.CLib.Text.{Malloc}

pub record Entry (F : Type 0) : Type 0 where
  pub id : ℤ
  pub record_date : Option Bytes
  pub temperature : F
  pub humidity : F
  pub location : Option Bytes
  pub device_name : Option Bytes

-- The entries that were written to an array of `capacity`.
pub record EntryList (F : Type 0) : Type 0 where
  pub size : ℕ
  pub capacity : ℕ
  pub entries : List (Entry F)

-- sizeof(entry) and sizeof(entrylist) with pointers of 32 bits.
abbrev pub sizeof_entry : ℕ
sizeof_entry = 24

abbrev pub sizeof_entrylist : ℕ
sizeof_entrylist = 12

-- The capacity is unsigned, so that the check for a negative one never holds.
unfoldable pub entrylist_alloc : {F : Type 0} → Malloc → ℕ → Option (EntryList F)
entrylist_alloc malloc capacity =
    if malloc sizeof_entrylist
    then (if malloc (sizeof_entry * capacity)
        then some (record { size = 0; capacity = capacity; entries = [] })
        else none)
    else none
