-- ===== src/Listener/Message.antt =====
-- include/mqmsg.h and src/mqmsg.c: the message that a request travels in.
use rpiweatherd.Base.{ℕ, ℤ, Option, none, List, ◌∷◌, Bytes, replicate, Bool, false}
use rpiweatherd.Data.Entries.{Entry, EntryList}
use rpiweatherd.Data.KeyValues.{KeyValueList}

-- What `void *data` leads to.
pub data Payload (F : Type 0) : Type 0 where
  nothing : Payload F
  one_entry : Entry F → Payload F
  entry_list : EntryList F → Payload F
  key_values : KeyValueList → Payload F

pub record Message (F : Type 0) : Type 0 where
  pub mtype : ℕ
  pub is_completed : Bool
  pub sockfd : ℤ
  pub retcode : ℤ
  pub fcountq : Option Bytes
  pub fselectq : Option Bytes
  pub unitstr : List ℕ
  pub payload : Payload F

-- The unit string of src/confighandler.c: Farenheit, percent, and NULs.
abbrev pub default_unitstr : List ℕ
default_unitstr = b'f' ∷ b'%' ∷ replicate 6 0

unfoldable pub rpiwd_mqmsg_init : {F : Type 0} → List ℕ → Message F → Message F
rpiwd_mqmsg_init unitstr msg = record msg {
  fcountq = none;
  fselectq = none;
  is_completed = false;
  unitstr = unitstr;
}
