-- ===== src/Listener/Release.antt =====
-- src/listener.c: what a worker frees behind an answer that it sent; src/dbhandler.c: what the
-- thread of the data base frees of a message.
pub mod Frees
use rpiweatherd.Base.{
  ℕ, Option, none, some, List, [], ◌∷◌, Bool, ◌||◌, ◌==◌, if◌then◌else◌, Outcome, ret, fault,
  null_pointer, uninitialised, ◌>>=◌,
}
use rpiweatherd.CLib.Heap.{Ptr, Live, free}
use rpiweatherd.Data.Release.{
  EntryPtrs, EntryListPtrs, KeyValueListPtrs, entry_ptr_free, entrylist_free, key_value_list_free,
}
use rpiweatherd.Listener.Codes.{msgtype_fetch, msgtype_current, msgtype_stats, msgtype_config}

-- What `void *data` leads to.
pub data PayloadPtrs : Type 0 where
  nothing : PayloadPtrs
  one_entry : ℕ → EntryPtrs → PayloadPtrs
  entry_list : EntryListPtrs → PayloadPtrs
  key_values : KeyValueListPtrs → PayloadPtrs

pub record MessagePtrs : Type 0 where
  pub mtype : ℕ
  pub fcountq : Ptr
  pub fselectq : Ptr
  pub payload : PayloadPtrs

-- `if (p) free(p);`
unfoldable pub free_if : Ptr → Live → Outcome Live
unfolding free
free_if none live = ret live
free_if (some p) live = free (some p) live

-- The casts of `data`. What is of another type is not read as if it were of this one.
unfoldable pub free_fetched : PayloadPtrs → Live → Outcome Live
unfolding entrylist_free
free_fetched nothing live = fault null_pointer
free_fetched (entry_list l) live = entrylist_free l live
free_fetched _ live = fault uninitialised

unfoldable pub free_entry : PayloadPtrs → Live → Outcome Live
unfolding entry_ptr_free
free_entry nothing live = fault null_pointer
free_entry (one_entry at e) live = entry_ptr_free at e live
free_entry _ live = fault uninitialised

unfoldable pub free_key_values : PayloadPtrs → Live → Outcome Live
unfolding key_value_list_free
free_key_values nothing live = fault null_pointer
free_key_values (key_values l) live = key_value_list_free l live
free_key_values _ live = fault uninitialised

unfoldable pub free_data : MessagePtrs → Live → Outcome Live
unfolding free_fetched free_entry free_key_values
free_data msg live =
    if msg.mtype == msgtype_fetch
    then free_fetched msg.payload live
    else if msg.mtype == msgtype_current
    then free_entry msg.payload live
    else if msg.mtype == msgtype_stats || msg.mtype == msgtype_config
    then free_key_values msg.payload live
    else ret live

-- Behind a JSON value that was sent.
unfoldable pub free_answer : MessagePtrs → Live → Outcome Live
unfolding free_if free_data
free_answer msg live = do
  live₁ ← free_if msg.fselectq live
  live₂ ← free_if msg.fcountq live₁
  free_data msg live₂
