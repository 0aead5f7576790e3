-- ===== src/Util/Dates.antt =====
-- src/util.c: normalize_date; include/dbhandler.h: DAY_START and DAY_END.
use rpiweatherd.Base.{
  ℕ, ◌+◌, ◌-◌, ◌%◌, ◌≤◌, ◌≡◌, ℤ, pos, neg, negsuc, Bool, true, false, Option, none, some, suc, leb,
  if◌then◌else◌, Bytes, codes, str_eq, Outcome, ret, ◌>>=◌, arith,
}
use rpiweatherd.Util.Units.{Count, rpiwd_units_to_time_t}

-- The remainder of a negative time is negative, as in C.
unfoldable pub day_start : ℤ → ℤ
day_start (pos t) = pos (t - t % 86400)
day_start (negsuc n) = neg (suc n - suc n % 86400)

unfoldable pub day_end : ℤ → ℤ
day_end (pos t) = pos (t + 86399 - t % 86400)
day_end (negsuc n) =
    if leb (suc n - suc n % 86400) 86399
    then pos (86399 - (suc n - suc n % 86400))
    else neg (suc n - suc n % 86400 - 86399)

-- The day of a time that is not negative begins at a multiple of 86400 seconds, ends one second
-- before the next, and holds the time.
pub day_bounds :
    (t : ℕ)
    → (s : ℕ) × (e : ℕ) × (day_start (pos t) ≡ pos s)
      × (day_end (pos t) ≡ pos e)
      × (s % 86400 ≡ 0)
      × (e ≡ s + 86399)
      × (s ≤ t)
      × (t ≤ e)
unfolding day_start day_end
day_bounds t = (
  t - t % 86400,
  t + 86399 - t % 86400,
  ground arith,
  ground arith,
  omega arith,
  omega arith,
  omega arith,
  omega arith,
)

-- The clock, and strptime with mktime: the time of a text in one of the two supported formats.
pub record Calendar : Type 0 where
  pub now : ℕ
  pub parse : Bytes → Option ℤ

-- The time, and `*rdtn_performed`, which the caller sets to true before the call.
unfoldable pub normalize_date : {F : Type 0} → Count F → Calendar → Bytes → Outcome (ℤ × Bool)
normalize_date count calendar value =
    if str_eq value (codes "now")
    then ret (pos calendar.now, true)
    else elim (calendar.parse value) [
      | some temp ↦ ret (temp, false)
      | none ↦ (do temp ← rpiwd_units_to_time_t count calendar.now value; ret (temp, true))
    ]
