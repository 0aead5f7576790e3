-- ===== src/Listener/Fetch/Laws.antt =====
-- When a fetch succeeds, and which errors reach the client.
use rpiweatherd.Base.{
  fault, ℤ, ◌≡◌, ◌≢◌, ◌↔◌, ◌⊎◌, inl, inr, refl, Bool, true, false, not, ◌&&◌, ◌||◌, Option, none,
  some, List, [], ◌∷◌, is_pos, if◌then◌else◌, Bytes, codes, str_eq, Outcome, ret, ◌>>=◌, >>=-eq-ret,
  arith, Option-cases,
}
use mathlib.Core.Path.{subst}
use rpiweatherd.Util.Units.{Count}
use rpiweatherd.Util.Dates.{Calendar, normalize_date}
use rpiweatherd.Http.Params.{HttpCmdParam, HttpCmd, used}
use rpiweatherd.CLib.Decimal.{strtol}
use rpiweatherd.Listener.Codes.{success, unknown_param, param_error, msgtype_fetch}
use rpiweatherd.Listener.Message.{Message}
use rpiweatherd.Listener.Fetch.{
  Range, Round, go_on, break, leave, set_tempunit, set_date, set_select, is_date, fetch_named,
  fetch_param, next_param, fetch_params, nonzero, fetch_queries, finish_fetch, end_loop, start,
  fetch_command_callback,
}

-- The codes that a loop can end with.
abbrev IsError : Round → Type 0
IsError (go_on r) = Unit
IsError (break code r) = (code ≡ param_error) ⊎ (code ≡ unknown_param)
IsError (leave code r) = code ≡ param_error

set_tempunit-IsError : (r : Range) (value : Bytes) → IsError (set_tempunit r value)
unfolding set_tempunit
set_tempunit-IsError r [] = inl refl
set_tempunit-IsError r (c ∷ []) = ground arith
set_tempunit-IsError r (c ∷ d ∷ s) = inl refl

set_date-IsError : (r : Range) (name : Bytes) (date : ℤ × Bool) → IsError (set_date r name date)
unfolding set_date
set_date-IsError r name (temp, b) = ground arith

set_select-IsError : (r : Range) (n : ℤ × Bool) → IsError (set_select r n)
unfolding set_select
set_select-IsError r (n, b) = ground arith

-- The same of an outcome. It goes through tests and sequences.
abbrev Ends : Outcome Round → Type 0
Ends (ret round) = IsError round
Ends (fault e) = Unit

Ends-if : (b : Bool) (x y : Outcome Round) → Ends x → Ends y → Ends (if b then x else y)
Ends-if true x y hx hy = hx
Ends-if false x y hx hy = hy

Ends-bind {ℓ} :
    {A : Type ℓ} (m : Outcome A) (f : A → Outcome Round)
    → ((a : A) → m ≡ ret a → Ends (f a))
    → Ends (m >>= f)
Ends-bind (ret a) f h = h a refl
Ends-bind (fault e) f h = tt

module _ {F : Type 0} (count : Count F) (calendar : Calendar) where
  fetch_named-Ends :
      (r : Range) (name : Option Bytes) (value : Bytes)
      → Ends (fetch_named count calendar r name value)
  unfolding fetch_named
  fetch_named-Ends r none value = tt
  fetch_named-Ends r (some name) value =
      Ends-if (str_eq name (codes "tempunit")) _ _ (set_tempunit-IsError r value) (
        Ends-if (is_date name) _ _
          (Ends-bind (normalize_date count calendar value) _ λ date e. set_date-IsError r name date)
          (Ends-if (str_eq name (codes "select")) _ _ (set_select-IsError r (strtol value))
            (inr refl)))

  fetch_param-Ends : (r : Range) (p : HttpCmdParam) → Ends (fetch_param count calendar r p)
  unfolding fetch_param
  fetch_param-Ends r p = go p.value
    where
      go :
          (v : Option Bytes)
          → Ends (elim v as (λ _. Outcome Round) [
            | none ↦ ret (break param_error r)
            | some value ↦ fetch_named count calendar r p.name value
          ])
      go none = inl refl
      go (some value) = fetch_named-Ends r p.name value

  next_param-Ends :
      (rest : Range → Outcome Round) (round : Round)
      → ((r : Range) → Ends (rest r))
      → IsError round
      → Ends (next_param count calendar rest round)
  unfolding next_param
  next_param-Ends rest (go_on r) h e = h r
  next_param-Ends rest (break code r) h e = e
  next_param-Ends rest (leave code r) h e = e

  fetch_params-Ends : (ps : List HttpCmdParam) (r : Range) → Ends (fetch_params count calendar ps r)
  unfolding fetch_params
  fetch_params-Ends [] r = tt
  fetch_params-Ends (p ∷ ps) r = Ends-bind (fetch_param count calendar r p) _ λ round e.
      next_param-Ends (fetch_params count calendar ps) round (fetch_params-Ends ps)
        (subst Ends e (fetch_param-Ends r p))

  -- The message of a success: the variables of the loop, and the two queries made of them.
  pub record Succeeds (erange : Bool) (cmd : HttpCmd) (msg msg' : Message F) : Type 0 where
    pub range : Range
    pub no_error :
        fetch_params count calendar (used cmd) (start count calendar erange msg) ≡ ret (go_on range)
    pub queries : Bytes × Bytes
    pub built : fetch_queries count calendar range ≡ some queries
    pub message : msg' ≡ record msg {
      unitstr = range.unitstr;
      mtype = msgtype_fetch;
      fcountq = some queries.0;
      fselectq = some queries.1;
    }

  success-inversion :
      (erange : Bool) (cmd : HttpCmd) (msg msg' : Message F) (round : Round)
      → fetch_params count calendar (used cmd) (start count calendar erange msg) ≡ ret round
      → IsError round
      → end_loop count calendar msg round ≡ (success, msg')
      → Succeeds erange cmd msg msg'
  unfolding end_loop finish_fetch
  success-inversion erange cmd msg msg' (go_on r) e er h =
      elim (Option-cases (fetch_queries count calendar r)) [
        | inl misfit ↦ absurd (let h' = rw misfit at h in cc)
        | inr (q, yes_q) ↦ record {
          range = r;
          no_error = e;
          queries = q;
          built = yes_q;
          message = let h' = rw yes_q at h in cc;
        }
      ]
  success-inversion erange cmd msg msg' (break code r) e er h =
      elim (Option-cases (fetch_queries count calendar r)) [
        | inl misfit ↦ absurd (let h' = rw misfit at h in ground arith)
        | inr (q, fit) ↦ absurd (let h' = rw fit at h in ground arith)
      ]
  success-inversion erange cmd msg msg' (leave code r) e er h = absurd (ground arith)

  -- A fetch that reports success went through all its parameters with no error; its message is the
  -- one it was given, with the type of a fetch, the loop's unit string, and the two queries that
  -- are made of the parameters.
  pub fetch_command_callback-Succeeds :
      (erange : Bool) (cmd : HttpCmd) (msg : Message F) {msg' : Message F}
      → fetch_command_callback count calendar erange cmd msg ≡ ret (success, msg')
      → Succeeds erange cmd msg msg'
  unfolding fetch_command_callback
  fetch_command_callback-Succeeds erange cmd msg {msg'} h =
      let (round, e, h') =
        >>=-eq-ret (fetch_params count calendar (used cmd) (start count calendar erange msg)) _ h in
      success-inversion erange cmd msg msg' round e
        (subst Ends e (fetch_params-Ends (used cmd) (start count calendar erange msg))) (cc h')

  -- A fetch whose first parameter has a value and a name that is none of the known ones is
  -- answered with the code for a wrong value, not with the code for an unknown parameter, and its
  -- message has the type of a fetch.
  pub fetch_command_callback_unknown :
      (erange : Bool) (cmd : HttpCmd) (msg : Message F) (name value : Bytes)
      (ps : List HttpCmdParam)
      → used cmd ≡ record { name = some name; value = some value } ∷ ps
      → str_eq name (codes "tempunit") ≡ false
      → is_date name ≡ false
      → str_eq name (codes "select") ≡ false
      → fetch_command_callback count calendar erange cmd msg
        ≡ ret (param_error, record msg { mtype = msgtype_fetch })
  unfolding fetch_command_callback fetch_params fetch_param fetch_named next_param end_loop
      finish_fetch
  fetch_command_callback_unknown erange cmd msg name value ps u t d s =
      rw (fetch_command_callback, u, t, d, s) (unfold fetch_queries in refl)

  -- Queries are made exactly for: a start, an end or both, and nothing else; a day and nothing
  -- else; a positive count and nothing else.
  pub fetch_queries_iff :
      (r : Range)
      → (fetch_queries count calendar r ≢ none) ↔ (
          (((nonzero count calendar r.from || nonzero count calendar r.to)
              && (not (nonzero count calendar r.on) && not (nonzero count calendar r.select)))
            || ((nonzero count calendar r.on
                  && (not (nonzero count calendar r.from)
                      && (not (nonzero count calendar r.to)
                          && not (nonzero count calendar r.select))))
                || (is_pos r.select
                    && (not (nonzero count calendar r.from)
                        && (not (nonzero count calendar r.to)
                            && not (nonzero count calendar r.on))))))
          ≡ true)
  unfolding fetch_queries
  fetch_queries_iff r = ground arith
