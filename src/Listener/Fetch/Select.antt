-- ===== src/Listener/Fetch/Select.antt =====
-- A fetch of a number of entries.
use rpiweatherd.Base.{
  ℕ, zero, suc, ◌^◌, ◌<◌, ◌≡◌, refl, pos, false, some, [], ◌∷◌, codes, str_eq, ret, arith,
}
use rpiweatherd.CLib.Decimal.{decimal, decimal_ℤ}
use rpiweatherd.Config.File.RoundTrip.{strtol-decimal_ℤ}
use rpiweatherd.Util.Units.{Count}
use rpiweatherd.Util.Dates.{Calendar}
use rpiweatherd.Http.Parser.RoundTrip.{to_cmd, used-to_cmd}
use rpiweatherd.Http.Request.Print.{Query}
use rpiweatherd.Listener.Codes.{success, msgtype_fetch}
use rpiweatherd.Listener.Message.{Message}
use rpiweatherd.Listener.Queries.{count_select_n, select_n}
use rpiweatherd.Listener.Fetch.{
  Range, go_on, set_select, fetch_named, fetch_param, next_param, fetch_params, fetch_queries,
  finish_fetch, end_loop, start, fetch_command_callback,
}

abbrev pub select_query : ℕ → Query
select_query n = (codes "select", decimal n) ∷ []

abbrev pub select_message : {F : Type 0} → ℕ → Message F → Message F
select_message n msg = record msg {
  mtype = msgtype_fetch;
  fcountq = some (count_select_n (pos n));
  fselectq = some (select_n (pos n));
}

set_select-pos :
    (r : Range) (n : ℕ)
    → r.erange ≡ false
    → set_select r (pos n, false) ≡ go_on (record r { select = pos n; erange = false })
unfolding set_select
set_select-pos r n e = rw e refl

module _ {F : Type 0} (count : Count F) (calendar : Calendar) where
  selected : Message F → ℕ → Range
  selected msg n = record {
    from = pos 0;
    to = pos 0;
    on = pos 0;
    select = pos n;
    unitstr = msg.unitstr;
    erange = false;
  }

  fetch_queries-selected :
      (msg : Message F) (n : ℕ)
      → 0 < n
      → fetch_queries count calendar (selected msg n)
        ≡ some (count_select_n (pos n), select_n (pos n))
  unfolding fetch_queries selected
  fetch_queries-selected msg zero h = absurd (omega arith)
  fetch_queries-selected msg (suc n) h = ground arith

  fetch_params-select :
      (msg : Message F) (n : ℕ)
      → n < 2 ^ 31
      → fetch_params count calendar
          (record { name = some (codes "select"); value = some (decimal n) } ∷ [])
          (start count calendar false msg)
        ≡ ret (go_on (selected msg n))
  unfolding fetch_params fetch_param fetch_named next_param set_select decimal_ℤ selected str_eq
  fetch_params-select msg n h = rw (strtol-decimal_ℤ (pos n) h) refl

  -- The command of a request for `n` entries, with 0 < n < 2³¹ and errno not ERANGE, succeeds with
  -- the two queries for `n` entries; nothing else of the message but its type changes.
  pub fetch_command_callback-select :
      (msg : Message F) (n : ℕ)
      → 0 < n
      → n < 2 ^ 31
      → fetch_command_callback count calendar false (to_cmd (codes "fetch") (select_query n)) msg
        ≡ ret (success, select_message n msg)
  unfolding fetch_command_callback end_loop finish_fetch selected
  fetch_command_callback-select msg n lo hi =
      rw
        (
          fetch_command_callback,
          used-to_cmd (codes "fetch") (select_query n),
          fetch_params-select msg n hi,
          end_loop,
          finish_fetch,
          fetch_queries-selected msg n lo,
        )
        refl
