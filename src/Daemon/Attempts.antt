-- ===== src/Daemon/Attempts.antt =====
-- When the queries of a round end.
use rpiweatherd.Base.{
  ℕ, zero, suc, ◌+◌, ◌≤◌, ℤ, pos, neg, ◌≡◌, ◌≢◌, Bool, true, ◌||◌, Option, none, some, eq_ℤ,
  eq_ℤ_iff, if◌then◌else◌, arith, List, [], ◌∷◌, Bytes, ret, >>=-eq-ret,
}
use rpiweatherd.Device.Dht11.{
  Pin, Stored, no_bits, dht11_max_reads, read_bits, finish_query, dht11_query_callback,
}
use rpiweatherd.Daemon.{query_data, is_failure, written}

-- The codes that the switch names.
abbrev pub is_named : ℤ → Bool
is_named retflag = eq_ℤ retflag (pos 0) || (eq_ℤ retflag (neg 4) || is_failure retflag)

-- If the switch names every code that a query returns, as many calls as attempts are left of the
-- 64 are enough for the queries to end.
pub query_data_fuel :
    (retflags : ℕ → ℤ) (fuel n qattempts : ℕ)
    → ((i : ℕ) → is_named (retflags i) ≡ true)
    → 64 ≤ qattempts + fuel
    → query_data retflags fuel n qattempts ≢ none
unfolding query_data
query_data_fuel retflags zero n q named h = ground arith
query_data_fuel retflags (suc fuel) n q named h =
    ground (arith, named n, query_data_fuel retflags fuel (suc n) (q + 1) named)

-- Where the queries of a round end with the results of a call, that call succeeded, and it is not
-- one before the first.
pub query_data-written :
    (retflags : ℕ → ℤ) (fuel n qattempts : ℕ) {m : ℕ}
    → query_data retflags fuel n qattempts ≡ some (written m)
    → (retflags m ≡ pos 0) × (n ≤ m)
unfolding query_data
query_data-written retflags zero n q h = ground arith
query_data-written retflags (suc fuel) n q {m} h = ground (
  arith,
  query_data-written retflags fuel (suc n) (if is_failure (retflags n) then q + 1 else q) {m = m},
  (eq_ℤ_iff (retflags n) (pos 0)).0,
)

finish_query-is_named :
    {F : Type 0} (atof : Bytes → F) (st : Stored) (arr : Option (List F))
    → is_named (finish_query atof st arr).0 ≡ true
unfolding finish_query
finish_query-is_named atof (j, d0 ∷ d1 ∷ d2 ∷ d3 ∷ d4 ∷ []) arr = ground arith
finish_query-is_named atof (j, _) arr = ground arith

-- Where the query of the sensor returns, the switch of the query loop names its code.
pub dht11_query_callback-is_named :
    {F : Type 0} (atof : Bytes → F) (pin : Pin) (arr : Option (List F)) {code : ℤ}
    {arr' : Option (List F)}
    → dht11_query_callback atof pin arr ≡ ret (code, arr')
    → is_named code ≡ true
unfolding dht11_query_callback
dht11_query_callback-is_named atof pin arr h =
    let (st, _, h') = >>=-eq-ret (read_bits pin dht11_max_reads 0 true 0 no_bits) _ h in
    ground (arith, finish_query-is_named atof st arr)
