-- ===== src/Listener/Worker/EndOfFile.antt =====
-- What the end of one client's stream does to the clients behind it.
use rpiweatherd.Base.{
  ◌≡◌, refl, true, false, Option, none, List, [], ◌∷◌, Bytes, ret, >>=-eq-ret, arith,
}
use rpiweatherd.CLib.Text.{Malloc}
use rpiweatherd.Http.Parser.{parse_http_request}
use rpiweatherd.Http.Params.{HttpCmd}
use rpiweatherd.Listener.Table.{Callback}
use rpiweatherd.Data.Json.{Call}
use rpiweatherd.Listener.Worker.{
  Worker, close, Round, Input, failed, end_of_file, received, read_and_parse_response,
  answer_request, worker_round, c_string, fill,
}

-- The flag is never taken back.
pub read_and_parse_response-is_eof :
    (malloc : Malloc) (stale : Bytes) (input : Input) (w : Worker) {cmd : Option HttpCmd}
    {w' : Worker}
    → w.is_eof ≡ true
    → read_and_parse_response malloc stale input w ≡ ret (cmd, w')
    → w'.is_eof ≡ true
unfolding read_and_parse_response
read_and_parse_response-is_eof malloc stale failed w e h = ground arith
read_and_parse_response-is_eof malloc stale end_of_file w e h = ground arith
read_and_parse_response-is_eof malloc stale (received text) w e h =
    let (request, _, parsed) = >>=-eq-ret (c_string (fill text stale)) _ h in
    let (result, _, returned) =
      >>=-eq-ret (parse_http_request malloc request w.response) _ parsed in
    ground arith

-- Once the flag for the end of a stream is set, a round with a new request that gives no command
-- closes the socket and does nothing else, and the flag stays set.
pub worker_round-end_of_file :
    {F : Type 0} (malloc : Malloc) (table : List (Bytes × Callback F))
    (serialize : List (Call F) → Option Bytes) (r : Round F) (w w' : Worker)
    → w.is_eof ≡ true
    → r.message.is_completed ≡ false
    → read_and_parse_response malloc r.stale r.input w ≡ ret (none, w')
    → (worker_round malloc table serialize r w ≡ ret (close ∷ [], w')) × (w'.is_eof ≡ true)
unfolding worker_round answer_request
worker_round-end_of_file malloc table serialize r w w' eof arriving request =
    let kept : w'.is_eof ≡ true =
      read_and_parse_response-is_eof malloc r.stale r.input w eof request in
    (rw (arriving, request, kept) refl, kept)
