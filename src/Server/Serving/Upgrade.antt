-- ===== src/Server/Serving/Upgrade.antt =====
-- A server that gets a client's HTTP/1 request for the upgrade to HTTP/2.
use levin.Prelude.{ℕ, ◌≡◌, refl, sym, ap, ◌∙◌, true, false, none, some, List, [], ◌∷◌, ◌++◌}
use levin.Bytes.{Bytes, codes, contains}
use levin.Bytes.Lines.{IsLine, crlf}
use levin.Bytes.Contains.{contains-before, contains-behind}
use levin.Result.{Result, ok}
use levin.Dict.{lookup}
use levin.Common.{Request, new_request, Response}
use levin.Http
use levin.Http.{Parsed}
use levin.Http.Printing.{IsPrintable, print_request, print_headers, first_line, lowered}
use levin.Http.ParseLaws.{handle_request-round_trip}
use levin.HttpTools.{Feed}
use levin.Hyper.{H2Ops}
use levin.Hyper.Parser
use levin.Hyper.Parser.Upgraded.{switching_text, handle_request-upgrade}
use levin.Connection.{Transport, connection_made, data_received}
use levin.Connection.Choice.{parse_sticks}
use levin.Connection.Receive.{data_received_futures}
use levin.Server.Serving.{http1, http2, http_tools, parser_ops, handle_connection}
use levin.Server.Serving.Requests.{first_future}

print_request-http :
    (method path version : Bytes) (headers : List (Bytes × Bytes)) (body : Bytes)
    → contains (codes "HTTP") version ≡ true
    → contains (codes "HTTP") (print_request method path version headers body) ≡ true
unfolding print_request
print_request-http method path version headers body h =
    contains-before (codes "HTTP") (first_line method path version)
      (crlf ++ (print_headers headers ++ (crlf ++ body)))
      (contains-behind (codes "HTTP") method (32 ∷ (path ++ 32 ∷ version)) (
        contains-behind (codes "HTTP") (32 ∷ path) (32 ∷ version)
          (contains-behind (codes "HTTP") (32 ∷ []) version h)))

module _ {H : Type 0} (h2 : H2Ops H) (feed_data : Bytes → Feed)
    (authority : Request → Result Bytes) where
  -- A client's printed HTTP/1 request, of one body line, that asks for h2c with settings that h2 accepts, on a
  -- new connection of the server, where h2 takes the bytes for no HTTP/2: no exception is raised, the
  -- response 101 and then what h2 has to send are written, in one call, and the one future has that request,
  -- as the request of stream 1.
  pub upgrades_http1 :
      (shared : Response) (t : Transport) (start h h' : H) (method path version : Bytes)
      (headers : List (Bytes × Bytes)) (body : Bytes) (request : Request) (b : ℕ) (settings : Bytes)
      → IsPrintable method path version headers
      → IsLine body
      → request ≡ new_request path method (some body) (lowered headers) version 0 (codes "http")
      → lookup (codes "upgrade") request.headers ≡ some (codes "h2c")
      → lookup (codes "http2-settings") request.headers ≡ some (b ∷ settings)
      → h2.receive_data
          (print_request method path version headers body)
          (h2.initiate_connection start)
        ≡ (none, h)
      → h2.initiate_upgrade_connection (b ∷ settings) (h2.clear_outbound_data_buffer h) ≡ (none, h')
      → let ops = parser_ops h2 feed_data authority in
        let received =
          data_received ops
            (print_request method path version headers body)
            (connection_made ops t (handle_connection shared start)) in
        (received.0 ≡ none)
        × (received.1.futures ≡ first_future (record request { stream = 1 }) ∷ [])
        × (received.1.transport
            ≡ some (record t {
              written = t.written ++ (switching_text ++ (h2.data_to_send h').0) ∷ [];
            }))
  unfolding connection_made handle_connection parser_ops Parser.connect
  upgrades_http1 shared t start h h' method path version headers body request b settings printable
        line e u s refused initiated =
      let ops = parser_ops h2 feed_data authority in
      let input = print_request method path version headers body in
      let c = connection_made ops t (handle_connection shared start) in
      let started = Parser.connect h2 (record { conn = start; streams = [] }) in
      let parsed : Parsed = record { to_send = some []; requests = request ∷ []; close = false } in
      let result : Parsed = record {
        to_send = some (switching_text ++ (h2.data_to_send h').0);
        requests = record request { stream = 1 } ∷ [];
        close = false;
      } in
      let p' : Parser.Parser H = record { conn = (h2.data_to_send h').1; streams = [] } in
      let accepted : Http.handle_request input ≡ ok parsed =
        handle_request-round_trip method path version headers body printable line
        ∙ ap (λ (r : Request). ok (record { to_send = some []; requests = r ∷ []; close = false }))
            (sym e) in
      let upgraded =
        handle_request-upgrade h2 input started h h' parsed request b settings refused
          (print_request-http method path version headers body printable.http) accepted refl u s
          initiated in
      let (d, taken, same, later) =
        parse_sticks ops input input c [] (http1 ∷ http_tools ∷ []) (http2 started) (http2 p')
          result refl refl tt (ap (λ r. (r.0, http2 r.1)) upgraded) in
      data_received_futures ops input c d t result refl taken refl
