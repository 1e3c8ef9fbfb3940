-- ===== src/Ipc.antt =====
-- internal/ipc/ipc.go: one request over a connection, and the responses that come back.
pub mod Answered
pub mod Serving
pub mod Endpoint
pub mod Single
pub mod Waiting
pub mod Program
use vibe_coding_secret_manag.Prelude.{
  ℕ, Bool, true, false, List, [], ◌∷◌, Option, none, some, Bytes, map, take, if◌then◌else◌,
}
use vibe_coding_secret_manag.Api.{Request, Response}
use vibe_coding_secret_manag.Broker.{Service}

-- maxFrame
abbrev pub max_frame : ℕ
max_frame = 1048576

unfoldable pub with_id : Bytes → Response → Response
with_id id response = record response { id = id }

unfoldable pub served : Request → Service → List Response × Service
served request s = (map (with_id request.id) s.sent, s)

unfoldable pub serve_request :
    (Request → Service → Service) → Option Request → Service → List Response × Service
unfolding served
serve_request handler none s = ([], s)
serve_request handler (some request) s = served request (handler request (record s { sent = [] }))

-- serveConn, on the bytes of the connection: what is sent back, each with the request's ID. `decode`
-- is encoding/json.
unfoldable pub serve_conn :
    (Bytes → Option Request)
    → (Request → Service → Service)
    → Bytes
    → Service
    → List Response × Service
unfolding serve_request
serve_conn decode handler bytes s = serve_request handler (decode (take max_frame bytes)) s

module _ {S E : Type 0} where
  read_on : Bool → Option E × S → Option E × S → Option E × S
  read_on is_final rest (some e, s) = (some e, s)
  read_on is_final rest (none, s) = if is_final then (none, s) else rest

module _ {S E : Type 0} (on_response : Response → S → Option E × S) where
  -- The loop of Call, over the responses that it reads, and the error that it meets behind them: none
  -- for io.EOF.
  unfoldable pub call_loop : Option E → List Response → S → Option E × S
  unfolding read_on
  call_loop ending [] s = (ending, s)
  call_loop ending (response ∷ responses) s =
      let (failure, s') = on_response response s in
      read_on response.is_final (call_loop ending responses s') (failure, s')
