-- ===== src/Listener/Replies.antt =====
-- src/http.c: send_response and send_http_error_response, and the bytes that the actions of a
-- worker write to the client's socket.
pub mod Written
use rpiweatherd.Base.{
  ℕ, ℤ, pos, Option, none, some, List, [], ◌∷◌, Bytes, codes, Outcome, ret, fault, null_pointer,
  ◌>>=◌,
}
use rpiweatherd.CLib.Text.{Malloc}
use rpiweatherd.Data.Json.{Call, set_call, integer, text}
use rpiweatherd.Http.Response.{make_response}
use rpiweatherd.Listener.Worker.{Action, send_error, send_data, close, send_to_db, send_to_workers}

-- What a reply takes from the system: memory, the server's name, and the text of ctime_r.
pub record Sender (F : Type 0) : Type 0 where
  pub malloc : Malloc
  pub server_id : Bytes
  pub ctime : Bytes
  pub serialize : List (Call F) → Option Bytes

module _ {F : Type 0} (sender : Sender F) where
  -- The bytes that are written, none where there is no response.
  unfoldable pub send_response : ℕ → Option Bytes → Outcome (Option Bytes)
  unfolding make_response
  send_response code body = make_response sender.malloc sender.server_id sender.ctime code body

  abbrev pub error_calls : ℤ → Bytes → List (Call F)
  error_calls errcode err =
      set_call (codes "length") (integer (pos 0))
      ∷ set_call (codes "errcode") (integer errcode)
      ∷ set_call (codes "errmsg") (text (some err))
      ∷ []

  -- A response that is NULL is measured with `strlen`.
  unfoldable pub send_http_error_response : ℕ → ℤ → Bytes → Outcome (Option Bytes)
  unfolding make_response
  send_http_error_response httpcode errcode err =
      elim (sender.serialize (error_calls errcode err)) [
        | none ↦ ret none
        | some serialized ↦ do
          response ←
              make_response sender.malloc sender.server_id sender.ctime httpcode (some serialized)
          elim response [ none ↦ fault null_pointer | some bytes ↦ ret (some bytes) ]
      ]

  unfoldable pub reply : Action F → Outcome (Option Bytes)
  unfolding send_response send_http_error_response
  reply (send_error httpcode errcode err) = send_http_error_response httpcode errcode err
  reply (send_data code body) = send_response code body
  reply _ = ret none
