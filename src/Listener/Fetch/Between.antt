-- ===== src/Listener/Fetch/Between.antt =====
-- A fetch of the entries between two dates.
use rpiweatherd.Base.{
  ◌≡◌, ◌⊎◌, ℤ, pos, neg, Bool, false, ◌||◌, some, [], ◌∷◌, eq_ℤ, Bytes, codes, ret,
}
use rpiweatherd.Util.Units.{Count}
use rpiweatherd.Util.Dates.{Calendar, normalize_date}
use rpiweatherd.Http.Params.{HttpCmdParam, HttpCmd, used}
use rpiweatherd.Listener.Message.{Message}
use rpiweatherd.Listener.Fetch.{Range, start}

-- `from=text` or `to=text`.
abbrev pub date_param : Bytes → Bytes → HttpCmdParam
date_param name text = record { name = some name; value = some text }

-- The two parameters, in either order.
abbrev pub AsksBetween : HttpCmd → Bytes → Bytes → Type 0
AsksBetween cmd from to =
    (used cmd ≡ date_param (codes "from") from ∷ date_param (codes "to") to ∷ [])
    ⊎ (used cmd ≡ date_param (codes "to") to ∷ date_param (codes "from") from ∷ [])

module _ {F : Type 0} (count : Count F) (calendar : Calendar) where
  -- The text is a date, which is neither 0 nor -1. `relative` says that it is `now` or a time before
  -- now, and not a date.
  pub record IsDate (text : Bytes) (t : ℤ) (relative : Bool) : Type 0 where
    pub normal : normalize_date count calendar text ≡ ret (t, relative)
    pub read : eq_ℤ t (pos 0) || eq_ℤ t (neg 1) ≡ false

  abbrev between : Bool → Message F → ℤ → ℤ → Range
  between erange msg f u = record (start count calendar erange msg) { from = f; to = u }
