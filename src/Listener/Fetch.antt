-- ===== src/Listener/Fetch.antt =====
-- src/listener.c: fetch_command_callback.
pub mod Laws
pub mod Select
pub mod Between
use rpiweatherd.Base.{
  ℕ, zero, suc, ◌+◌, ℤ, pos, neg, Bool, true, false, not, ◌&&◌, ◌||◌, Option, none, some, List, [],
  ◌∷◌, ◌==◌, eq_ℤ, is_pos, is_neg, if◌then◌else◌, Bytes, length, set, codes, str_eq, Outcome, ret,
  fault, null_pointer, ◌>>=◌,
}
use rpiweatherd.CLib.Text.{to_lower}
use rpiweatherd.CLib.Decimal.{strtol}
use rpiweatherd.Util.Units.{Count}
use rpiweatherd.Util.Dates.{Calendar, day_start, day_end, normalize_date}
use rpiweatherd.Http.Params.{HttpCmdParam, HttpCmd, used}
use rpiweatherd.Listener.Codes.{success, unknown_param, param_error, params_missing, msgtype_fetch}
use rpiweatherd.Listener.Message.{Message}
use rpiweatherd.Listener.Queries.{
  count_by_date, read_by_date, count_by_date_range, read_by_date_range, count_select_n, select_n,
}

-- The local variables, the message's unit string, and whether errno is ERANGE.
pub record Range : Type 0 where
  pub from : ℤ
  pub to : ℤ
  pub on : ℤ
  pub select : ℤ
  pub unitstr : List ℕ
  pub erange : Bool

-- How a round of the loop ends: with the next round, a break with a flag, or a return.
pub data Round : Type 0 where
  go_on : Range → Round
  break : ℤ → Range → Round
  leave : ℤ → Range → Round

-- The unit is one letter. `c` is put into the unit string, `f` changes nothing.
unfoldable pub set_tempunit : Range → Bytes → Round
unfolding to_lower
set_tempunit r (c ∷ []) =
    if to_lower c == b'c'
    then go_on (record r { unitstr = set r.unitstr 0 b'c' })
    else if to_lower c == b'f'
    then go_on r
    else break param_error r
set_tempunit r _ = break param_error r

-- A date goes to the variable that the name says.
unfoldable pub set_date : Range → Bytes → ℤ × Bool → Round
unfolding str_eq
set_date r name (temp, rdtn_performed) =
    if eq_ℤ temp (pos 0) || eq_ℤ temp (neg 1)
    then break param_error r
    else if str_eq name (codes "from")
    then go_on (record r { from = if rdtn_performed then day_start temp else temp })
    else if str_eq name (codes "to")
    then go_on (record r { to = if rdtn_performed then day_end temp else temp })
    else go_on (record r { on = temp })

unfoldable pub set_select : Range → ℤ × Bool → Round
set_select r (select, range_error) =
    let r' = record r { select = select; erange = r.erange || range_error } in
    if r'.erange || is_neg select then leave param_error r' else go_on r'

abbrev pub is_date : Bytes → Bool
is_date name = str_eq name (codes "from") || (str_eq name (codes "to") || str_eq name (codes "on"))

module _ {F : Type 0} (count : Count F) (calendar : Calendar) where
  -- A parameter with a value, by its name.
  unfoldable pub fetch_named : Range → Option Bytes → Bytes → Outcome Round
  fetch_named r none value = fault null_pointer
  fetch_named r (some name) value =
      if str_eq name (codes "tempunit")
      then ret (set_tempunit r value)
      else if is_date name
      then (do date ← normalize_date count calendar value; ret (set_date r name date))
      else if str_eq name (codes "select")
      then ret (set_select r (strtol value))
      else ret (break unknown_param r)

  unfoldable pub fetch_param : Range → HttpCmdParam → Outcome Round
  fetch_param r p = elim p.value [
    | none ↦ ret (break param_error r)
    | some value ↦ fetch_named r p.name value
  ]

  unfoldable pub next_param : (Range → Outcome Round) → Round → Outcome Round
  next_param fetch_rest (go_on r) = fetch_rest r
  next_param fetch_rest round = ret round

  -- The loop over the parameters.
  unfoldable pub fetch_params : List HttpCmdParam → Range → Outcome Round
  fetch_params [] r = ret (go_on r)
  fetch_params (p ∷ ps) r = do round ← fetch_param r p; next_param (fetch_params ps) round

  abbrev pub nonzero : ℤ → Bool
  nonzero t = not (eq_ℤ t (pos 0))

  -- The texts of the two queries for the variables that were given, if they fit one kind of query.
  unfoldable pub fetch_queries : Range → Option (Bytes × Bytes)
  fetch_queries r =
      let from = nonzero r.from in
      let to = nonzero r.to in
      let on = nonzero r.on in
      let select = nonzero r.select in
      if from && (not to && (not on && not select))
      then some (count_by_date b'>' r.from, read_by_date b'>' r.from)
      else if from && (to && (not select && not on))
      then some (count_by_date_range r.from r.to, read_by_date_range r.from r.to)
      else if not from && (to && (not select && not on))
      then some (count_by_date b'<' r.to, read_by_date b'<' r.to)
      else if not from && (not to && (not select && on))
      then some (
        count_by_date_range (day_start r.on) (day_end r.on),
        read_by_date_range (day_start r.on) (day_end r.on),
      )
      else if not from && (not to && (not on && is_pos r.select))
      then some (count_select_n r.select, select_n r.select)
      else none

  -- Behind the loop: only a positive flag returns at once.
  unfoldable pub finish_fetch : ℤ → Range → Message F → ℤ × Message F
  finish_fetch retflag r msg =
      let msg₁ = record msg { unitstr = r.unitstr } in
      let msg₂ = record msg₁ { mtype = msgtype_fetch } in
      if is_pos retflag then (retflag, msg₁) else elim (fetch_queries r) [
        | none ↦ (param_error, msg₂)
        | some (c, s) ↦ (retflag, record msg₂ { fcountq = some c; fselectq = some s })
      ]

  unfoldable pub end_loop : Message F → Round → ℤ × Message F
  end_loop msg (go_on r) = finish_fetch (pos 0) r msg
  end_loop msg (break retflag r) = finish_fetch retflag r msg
  end_loop msg (leave retcode r) = (retcode, record msg { unitstr = r.unitstr })

  abbrev pub start : Bool → Message F → Range
  start erange msg = record {
    from = pos 0;
    to = pos 0;
    on = pos 0;
    select = pos 0;
    unitstr = msg.unitstr;
    erange = erange;
  }

  -- The return code and the message. The array of a parsed command is never null.
  unfoldable pub fetch_command_callback : Bool → HttpCmd → Message F → Outcome (ℤ × Message F)
  fetch_command_callback erange cmd msg = do
    round ← fetch_params (used cmd) (start erange msg)
    ret (end_loop msg round)
