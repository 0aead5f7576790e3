-- ===== src/Config/Reload.antt =====
-- src/confighandler.c: free_config, and the strings that inih_callback allocates;
-- src/rpiweatherd.c: what a reload does to the configuration. The strings are known by their
-- blocks, and the file by the entries that the ini parser finds in it.
pub mod Owns
pub mod Stale
use rpiweatherd.Base.{
  ℕ, ℤ, pos, Option, none, some, List, [], ◌∷◌, if◌then◌else◌, Bytes, codes, str_eq, Outcome, ret,
  ◌>>=◌,
}
use rpiweatherd.CLib.Heap.{Ptr, Live, free}

pub record ConfigPtrs : Type 0 where
  pub measure_location : Ptr
  pub device_name : Ptr
  pub query_interval : Ptr

pub record Store : Type 0 where
  pub config : ConfigPtrs
  pub live : Live

-- `if (p) free(p);`
unfoldable pub free_string : Ptr → Live → Outcome Live
unfolding free
free_string none live = ret live
free_string (some p) live = free (some p) live

-- The pointers stay as they were.
unfoldable pub free_config : ConfigPtrs → Live → Outcome Live
unfolding free_string
free_config c live = do
  live₁ ← free_string c.measure_location live
  live₂ ← free_string c.device_name live₁
  free_string c.query_interval live₂

-- What `strdup` returns: the address of a new block, or NULL.
abbrev pub Strdup : Type 0
Strdup = Live → Ptr

abbrev pub with_block : Ptr → Live → Live
with_block none live = live
with_block (some p) live = p ∷ live

-- A name and its value.
abbrev pub IniEntry : Type 0
IniEntry = Bytes × Bytes

module _ (strdup : Strdup) where
  -- The entries with a string; the others are numbers, or refused.
  unfoldable pub put_string : Bytes → Store → Store
  unfolding str_eq
  put_string name st =
      let p = strdup st.live in
      let live = with_block p st.live in
      if str_eq name (codes "measure_location")
      then record { config = record st.config { measure_location = p }; live = live }
      else if str_eq name (codes "query_interval")
      then record { config = record st.config { query_interval = p }; live = live }
      else if str_eq name (codes "device_name")
      then record { config = record st.config { device_name = p }; live = live }
      else st

  unfoldable pub put_entry : IniEntry → Store → Store
  unfolding put_string
  put_entry (name, []) st = st
  put_entry (name, c ∷ value) st = put_string name st

  unfoldable pub put_settings : List IniEntry → Store → Store
  unfolding put_entry
  put_settings [] st = st
  put_settings (entry ∷ entries) st = put_settings entries (put_entry entry st)

  -- free_current_config and init_current_config.
  unfoldable pub reload_config : List IniEntry → Store → Outcome Store
  unfolding free_config put_settings
  reload_config entries st = do
    live ← free_config st.config st.live
    ret (put_settings entries (record st { live = live }))
