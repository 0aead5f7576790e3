-- ===== src/Listener/Replies/Written.antt =====
-- Every reply of a worker is written whole.
use rpiweatherd.Base.{
  ℕ, ◌+◌, ◌≤◌, ◌<◌, ◌^◌, ◌≡◌, refl, ℤ, true, false, not, ◌||◌, Option, none, some, List, ◌∷◌,
  length, take, Bytes, All, ret, fault, null_pointer, Holds, Holds-bind, Holds-if, Holds-ret, arith,
  codes, str_eq, ◌==◌, Bool-cases, Option-cases, All-map, inl, inr,
}
use rpiweatherd.CLib.Text.{Malloc}
use rpiweatherd.Data.Json.{Call}
use rpiweatherd.Http.Codes.{http_code_str}
use rpiweatherd.Http.Response.{response_text, content_length_line, or_empty, make_response}
use rpiweatherd.Http.Response.Bounds.{make_response_fits}
use rpiweatherd.Http.Parser.Parts.{Available}
use rpiweatherd.Http.Params.{HttpCmd}
use rpiweatherd.Listener.Message.{Message}
use rpiweatherd.Listener.Replies.{
  Sender, send_response, error_calls, send_http_error_response, reply,
}
use rpiweatherd.Listener.Table.{Callback}
use rpiweatherd.Listener.Worker.{
  Worker, Round, Action, send_error, send_data, close, send_to_db, send_to_workers,
  read_and_parse_response, dispatch_command, after_dispatch, answer_request, message_json,
  answer_completed, worker_round,
}

module _ {F : Type 0} where
  -- A serialized value is shorter than 2 ^ 31 bytes.
  abbrev pub IsSmall : (List (Call F) → Option Bytes) → Type 0
  IsSmall serialize = (calls : List (Call F)) → length (or_empty (serialize calls)) < 2 ^ 31

  -- The codes that a worker sends, and how long the data are.
  abbrev pub IsKnown : Action F → Type 0
  IsKnown (send_error httpcode errcode err) = httpcode ≡ 400
  IsKnown (send_data code body) =
      ((code == 200 || code == 204) ≡ true) × (length (or_empty body) < 2 ^ 31)
  IsKnown _ = Unit

  after_dispatch-IsKnown : (result : ℤ × Message F) → All IsKnown (after_dispatch result)
  unfolding after_dispatch
  after_dispatch-IsKnown (code, msg) = ground arith

  answer_completed-IsKnown :
      (serialize : List (Call F) → Option Bytes) (msg : Message F) (w : Worker)
      (jval : Option (List (Call F)))
      → IsSmall serialize
      → All IsKnown (answer_completed serialize msg w jval).0
  unfolding answer_completed
  answer_completed-IsKnown serialize msg w none h = (refl, (tt, tt))
  answer_completed-IsKnown serialize msg w (some calls) h = ((refl, h calls), (tt, tt))

  answer_request-IsKnown :
      (table : List (Bytes × Callback F)) (msg : Message F) (request : Option HttpCmd × Worker)
      → Holds (λ r. All IsKnown r.0) (answer_request table msg request)
  unfolding answer_request
  answer_request-IsKnown table msg (none, w) = ground arith
  answer_request-IsKnown table msg (some cmd, w) =
      Holds-if _
        (str_eq cmd.cmdname (codes "favicon.ico") || str_eq cmd.cmdname (codes "text-html")) _ _
        (λ _. ((refl, omega arith), (tt, tt)))
        λ _.
          Holds-bind (λ r. All IsKnown r.0) (dispatch_command table cmd msg) _
            λ result _. after_dispatch-IsKnown result

  worker_round-IsKnown :
      (malloc : Malloc) (table : List (Bytes × Callback F))
      (serialize : List (Call F) → Option Bytes) (r : Round F) (w : Worker)
      → IsSmall serialize
      → Holds (λ result. All IsKnown result.0) (worker_round malloc table serialize r w)
  unfolding worker_round
  worker_round-IsKnown malloc table serialize r w h =
      Holds-if _ (not r.message.is_completed) _ _
        (λ _.
          Holds-bind (λ result. All IsKnown result.0)
            (read_and_parse_response malloc r.stale r.input w) _
            λ request _. answer_request-IsKnown table r.message request)
        λ _.
          Holds-bind (λ result. All IsKnown result.0) (message_json w.jval_freed r.message) _
            λ jval _. answer_completed-IsKnown serialize r.message w jval h

module _ {F : Type 0} (sender : Sender F) where
  -- The line of the date, which is not empty, and the server's name are short, and there is memory.
  pub record IsReady (c : ℕ) (day : Bytes) : Type 0 where
    pub memory : Available sender.malloc
    pub date : sender.ctime ≡ c ∷ day
    pub date_short : length day ≤ 24
    pub name_short : length sender.server_id ≤ 300
    pub small : IsSmall sender.serialize

  -- The template with the text of the code, the date, the name, the length of the data and these.
  abbrev pub whole : ℕ → Bytes → Bytes → Option Bytes → Bytes
  whole c day status body =
      response_text status (take (length day) (c ∷ day)) sender.server_id
        (content_length_line (or_empty body)) (or_empty body)

  -- What is written for an action. An error whose JSON value cannot be serialized has no reply.
  abbrev pub IsWritten : ℕ → Bytes → Action F → Type 0
  IsWritten c day (send_error httpcode errcode err) =
      reply sender (send_error httpcode errcode err)
      ≡ ret (elim (sender.serialize (error_calls sender errcode err)) as (λ _. Option Bytes) [
        | none ↦ none
        | some serialized ↦ some (whole c day (codes "400 Bad Request") (some serialized))
      ])
  IsWritten c day (send_data code body) =
      (status : Bytes) × (http_code_str code ≡ some status)
      × (reply sender (send_data code body) ≡ ret (some (whole c day status body)))
  IsWritten c day act = reply sender act ≡ ret none

  made :
      (c : ℕ) (day : Bytes) (code : ℕ) (body : Option Bytes) {status : Bytes}
      → IsReady c day
      → http_code_str code ≡ some status
      → length (or_empty body) < 2 ^ 31
      → make_response sender.malloc sender.server_id sender.ctime code body
        ≡ ret (some (whole c day status body))
  made c day code body h s small = rw (h.date) (
      make_response_fits sender.malloc sender.server_id c day code body (h.memory _) s h.date_short
        h.name_short small)

  known_text :
      (code : ℕ)
      → (code == 200 || code == 204) ≡ true
      → (status : Bytes) × (http_code_str code ≡ some status)
  unfolding http_code_str
  known_text code h = elim (Bool-cases (code == 200)) [
    | inl e ↦ (codes "200 OK", rw e refl)
    | inr e ↦ (codes "204 No Content", ground arith)
  ]

  error-IsWritten :
      (c : ℕ) (day : Bytes) (errcode : ℤ) (err : Bytes)
      → IsReady c day
      → IsWritten c day (send_error 400 errcode err)
  unfolding reply send_http_error_response http_code_str
  error-IsWritten c day errcode err h =
      elim (Option-cases (sender.serialize (error_calls sender errcode err))) [
        | inl unserialized ↦ rw (reply, send_http_error_response, unserialized) refl
        | inr (serialized, e) ↦
            let small : length serialized < 2 ^ 31 =
              rw e at (h.small (error_calls sender errcode err)) in
            rw (reply, send_http_error_response, e, made c day 400 (some serialized) h refl small)
              refl
      ]

  known-IsWritten :
      (c : ℕ) (day : Bytes) (act : Action F) → IsReady c day → IsKnown act → IsWritten c day act
  unfolding reply send_response
  known-IsWritten c day (send_error httpcode errcode err) h k =
      rw k (error-IsWritten c day errcode err h)
  known-IsWritten c day (send_data code body) h k =
      let (status, named) = known_text code k.0 in (status, named, made c day code body h named k.1)
  known-IsWritten c day close h k = refl
  known-IsWritten c day (send_to_db msg) h k = refl
  known-IsWritten c day (send_to_workers msg) h k = refl

  -- Where memory is available, the date is a line of at most 25 bytes that is not empty, the
  -- server's name has at most 300, and serialized values are shorter than 2 ^ 31: every reply of a
  -- round of a worker is written whole, with no buffer overflowed. Data are sent with the text of
  -- their code, an error with `400 Bad Request` and the serialized object of its code and text; an
  -- error that cannot be serialized has no reply.
  pub worker_round-IsWritten :
      (malloc : Malloc) (table : List (Bytes × Callback F)) (r : Round F) (w : Worker) (c : ℕ)
      (day : Bytes) {acts : List (Action F)} {w' : Worker}
      → IsReady c day
      → worker_round malloc table sender.serialize r w ≡ ret (acts, w')
      → All (IsWritten c day) acts
  worker_round-IsWritten malloc table r w c day {acts} h e =
      All-map IsKnown (IsWritten c day) acts (λ act k. known-IsWritten c day act h k)
        (Holds-ret (λ result. All IsKnown result.0) (worker_round malloc table sender.serialize r w)
          (worker_round-IsKnown malloc table sender.serialize r w h.small) e)

  -- An error whose value is serialized and whose response has no memory is read through NULL.
  pub send_http_error_response-no_memory :
      (httpcode : ℕ) (errcode : ℤ) (err serialized : Bytes)
      → sender.serialize (error_calls sender errcode err) ≡ some serialized
      → sender.malloc (512 + length serialized) ≡ false
      → send_http_error_response sender httpcode errcode err ≡ fault null_pointer
  unfolding send_http_error_response make_response
  send_http_error_response-no_memory httpcode errcode err serialized e m =
      rw (send_http_error_response, e, make_response, m) refl
