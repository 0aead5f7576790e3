-- ===== src/Http/Parser/Safety.antt =====
-- What holds of every command that the parser returns, and of the requests that break it.
use rpiweatherd.Base.{
  ◌*◌, ◌+◌, [], ◌∷◌, ℤ, ◌≤◌, ◌≡◌, ◌≢◌, ◌++◌, Bool, true, false, Option, none, some, ◌==◌, Bytes,
  length, Outcome, ret, fault, write_overflow, ◌>>=◌, Free, arith, is_neg, not, refl, if◌then◌else◌,
  ◌∙◌,
}
use mathlib.Core.Path.{subst}
use rpiweatherd.CLib.Text.{Malloc, strdup}
use rpiweatherd.Util.Lines.{rpiwd_getline, rpiwd_getline-crlf, crlf}
use rpiweatherd.Http.Error
use rpiweatherd.Http.Params.{HttpCmd, used, check_duplicates}
use rpiweatherd.Http.Params.Distinct.{Named, Distinct, check_duplicates-false}
use rpiweatherd.Http.Parser.{
  Parsed, reject_duplicates, build_command, parse_line, parse_http_request, sizeof_http_cmd,
  sizeof_http_cmd_param, count_ampersands, parse_params,
}
use rpiweatherd.Http.Parser.Parts.{Available}
use rpiweatherd.Http.Parser.RoundTrip.{parse_http_request-line}
use rpiweatherd.Http.Request.{break_request, is_supported}
use rpiweatherd.Http.Request.Bounds.{break_request_overflow}

-- The parameters of a command have names, and no two have the same.
pub record IsClean (cmd : HttpCmd) : Type 0 where
  pub named : Named (used cmd)
  pub distinct : Distinct (used cmd)

abbrev CleanResult : Outcome Parsed → Type 0
CleanResult (ret (some cmd, _)) = IsClean cmd
CleanResult _ = Unit

-- Cleanness goes through a test, a sequence and a choice.
clean_if :
    (b : Bool) (x y : Outcome Parsed)
    → CleanResult x
    → CleanResult y
    → CleanResult (if b then x else y)
clean_if true x y hx hy = hx
clean_if false x y hx hy = hy

clean_bind {ℓ} :
    {A : Type ℓ} (m : Outcome A) (f : A → Outcome Parsed)
    → ((a : A) → m ≡ ret a → CleanResult (f a))
    → CleanResult (m >>= f)
clean_bind (ret a) f h = h a refl
clean_bind (fault e) f h = tt

clean_option {ℓ} :
    {A : Type ℓ} (o : Option A) (x : Outcome Parsed) (f : A → Outcome Parsed)
    → CleanResult x
    → ((a : A) → CleanResult (f a))
    → CleanResult (elim o as (λ _. Outcome Parsed) [ none ↦ x | some a ↦ f a ])
clean_option none x f hx hf = hx
clean_option (some a) x f hx hf = hf a

reject_duplicates-Clean :
    (response : ℤ) (o : Option HttpCmd) → CleanResult (reject_duplicates response o)
unfolding reject_duplicates
reject_duplicates-Clean response none = tt
reject_duplicates-Clean response (some cmd) = clean_bind (check_duplicates cmd (used cmd)) _ passed
  where
    passed :
        (d : Bool)
        → check_duplicates cmd (used cmd) ≡ ret d
        → CleanResult (ret (if d then (none, Error.duplicate_params) else (some cmd, response)))
    passed true e = tt
    passed false e = let (n, d) = check_duplicates-false cmd e in record { named = n; distinct = d }

build_command-Clean :
    (malloc : Malloc) (response : ℤ) (commandstr args : Bytes)
    → CleanResult (build_command malloc response commandstr args)
unfolding build_command
build_command-Clean malloc response commandstr args =
    clean_if (not (malloc sizeof_http_cmd)) _ _ tt (
      clean_option (strdup malloc commandstr) _ _ tt λ cmdname.
        clean_if (not (malloc (sizeof_http_cmd_param * (count_ampersands args + 1)))) _ _ tt (
          clean_bind (parse_params malloc cmdname args) _
            λ o e. reject_duplicates-Clean response o))

parse_line-Clean :
    (malloc : Malloc) (response : ℤ) (line : Bytes) → CleanResult (parse_line malloc response line)
unfolding parse_line
parse_line-Clean malloc response line = clean_bind (break_request line) _ λ b e.
    clean_if (is_neg b.flag) _ _ tt (
      clean_if (not (is_supported b.http_proto)) _ _ tt
        (build_command-Clean malloc response b.commandstr b.args))

parse_http_request-Clean :
    (malloc : Malloc) (request : Bytes) (response : ℤ)
    → CleanResult (parse_http_request malloc request response)
unfolding parse_http_request
parse_http_request-Clean malloc request response =
    clean_option (rpiwd_getline malloc request crlf) _ _ tt
      λ line. parse_line-Clean malloc response line

-- Whatever the request and the state of memory, a command that the parser returns has a name for
-- each of its parameters, and no two of them have the same name.
pub parse_http_request-IsClean :
    (malloc : Malloc) (request : Bytes) (response : ℤ) {cmd : HttpCmd} {r : ℤ}
    → parse_http_request malloc request response ≡ ret (some cmd, r)
    → IsClean cmd
parse_http_request-IsClean malloc request response e =
    subst CleanResult e (parse_http_request-Clean malloc request response)

-- A request whose first line, up to a carriage return and a newline, holds no carriage return and
-- has 1024 bytes or more is written past the end of the local copy, if memory for the line is
-- available.
pub parse_http_request_overflow :
    (malloc : Malloc) (line rest : Bytes) (response : ℤ)
    → Available malloc
    → Free (λ c. c == b'\r') line
    → 1024 ≤ length line
    → parse_http_request malloc (line ++ (crlf ++ rest)) response ≡ fault write_overflow
unfolding parse_line
parse_http_request_overflow malloc line rest response m f h =
    parse_http_request-line malloc (line ++ (crlf ++ rest)) response line
      (rpiwd_getline-crlf malloc line rest m (not_nil line h) f)
    ∙ rw (parse_line, break_request_overflow line h)
  where
    not_nil : (s : Bytes) → 1024 ≤ length s → s ≢ []
    not_nil [] h = absurd (omega arith)
    not_nil (c ∷ s) h = λ e. cc
