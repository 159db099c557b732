-- ===== src/Server/Serving/Requests.antt =====
-- A server that gets a client's HTTP/1 request, from the bytes that it receives to those that it writes.
use levin.Prelude.{◌≡◌, refl, sym, ap, ◌∙◌, false, none, some, List, [], ◌∷◌, ◌++◌}
use levin.Bytes.{Bytes, codes}
use levin.Bytes.Lines.{IsLine}
use levin.Result.{Result, ok}
use levin.Common.{Request, Response, new_request}
use levin.Http
use levin.Http.{Parsed, with_length}
use levin.Http.Printing.{IsPrintable, print_request, lowered}
use levin.Http.ParseLaws.{handle_request-round_trip}
use levin.HttpTools.{Feed}
use levin.Hyper.{H2Ops}
use levin.Hyper.Parser
use levin.Hyper.Parser.{asks_h2c}
use levin.Hyper.Parser.Plain.{handle_request-plain}
use levin.Connection.{
  Connection, Future, Transport, Handler, connection_made, data_received, run_future, parser_of,
  add_futures, offer_transport, remove_future,
}
use levin.Connection.Choice.{parse_sticks}
use levin.Connection.Serve.{data_received_one, run_future_written}
use levin.Server.Serving.{
  AnyParser, http1, http2, http_tools, parser_ops, print_http1, handle_connection,
}

-- The future of the first request
abbrev pub first_future : Request → Future
first_future request = record { ident = 0; request = request; closes = false }

module _ {H : Type 0} (h2 : H2Ops H) (feed_data : Bytes → Feed)
    (authority : Request → Result Bytes) where
  -- The connection after such a request: a future for it, and the first parser of HTTP/1 is chosen.
  pub receives_http1 :
      (handler : Handler) (shared : Response) (t : Transport) (start h : H)
      (method path version : Bytes) (headers : List (Bytes × Bytes)) (body : Bytes)
      (request : Request)
      → IsPrintable method path version headers
      → IsLine body
      → request ≡ new_request path method (some body) (lowered headers) version 0 (codes "http")
      → asks_h2c request ≡ false
      → h2.receive_data
          (print_request method path version headers body)
          (h2.initiate_connection start)
        ≡ (none, h)
      → let ops = parser_ops h2 feed_data authority in
        let c = connection_made ops t (handle_connection shared start) in
        (q : AnyParser H) × (data_received ops (print_request method path version headers body) c
          ≡ (
            none,
            add_futures false
                (request ∷ [])
                (record c { parsers = q ∷ http1 ∷ http_tools ∷ []; chosen = some 1 }),
          ))
  unfolding connection_made handle_connection parser_ops add_futures Parser.connect
  receives_http1 handler shared t start h method path version headers body request printable line e
        plain refused =
      let ops = parser_ops h2 feed_data authority in
      let input = print_request method path version headers body in
      let c = connection_made ops t (handle_connection shared start) in
      let parsed : Parsed = record { to_send = some []; requests = request ∷ []; close = false } in
      let accepted : Http.handle_request input ≡ ok parsed =
        handle_request-round_trip method path version headers body printable line
        ∙ ap (λ (r : Request). ok (record { to_send = some []; requests = r ∷ []; close = false }))
            (sym e) in
      let started = Parser.connect h2 (record { conn = start; streams = [] }) in
      let (d, taken, same, later) =
        parse_sticks ops input input c (http2 started ∷ []) (http_tools ∷ []) http1 http1 parsed
          refl refl
          (handle_request-plain h2 input started h parsed request refused accepted refl plain, tt)
          (ap (λ r. (r, http1)) accepted) in
      let q = http2 (Parser.handle_request h2 input started).1 in
      (
        q,
        data_received_one ops handler input c
            (record c { parsers = q ∷ http1 ∷ http_tools ∷ []; chosen = some 1 }) request
            (taken ∙ ap (λ (x : Connection (AnyParser H)). (some (ok parsed), x)) same),
      )

  -- A client's printed HTTP/1 request, of one body line, that does not ask for h2c, on a new connection of the
  -- server, where h2 takes the bytes for no HTTP/2: no exception is raised and the one future has that
  -- request; when its coroutine has run, with a handler that returns a response without pushes that the HTTP/1
  -- parser can print, no future is left, and exactly the printed response was written to the transport.
  pub serves_http1 :
      (handler : Handler) (shared : Response) (t : Transport) (start h : H)
      (method path version : Bytes) (headers : List (Bytes × Bytes)) (body : Bytes)
      (request request' : Request) (response : Response) (chunks : List Bytes)
      → IsPrintable method path version headers
      → IsLine body
      → request ≡ new_request path method (some body) (lowered headers) version 0 (codes "http")
      → asks_h2c request ≡ false
      → h2.receive_data
          (print_request method path version headers body)
          (h2.initiate_connection start)
        ≡ (none, h)
      → handler (offer_transport request) ≡ (ok response, request')
      → response.pushes ≡ []
      → Http.handle_response response ≡ ok chunks
      → let ops = parser_ops h2 feed_data authority in
        let received =
          data_received ops
            (print_request method path version headers body)
            (connection_made ops t (handle_connection shared start)) in
        let done = run_future ops handler (first_future request) received.1 in
        (received.0 ≡ none)
        × (received.1.futures ≡ first_future request ∷ [])
        × (done.futures ≡ [])
        × (done.transport ≡ some (record t { written = t.written ++ chunks }))
  unfolding connection_made handle_connection parser_ops add_futures parser_of print_http1
      remove_future Parser.connect
  serves_http1 handler shared t start h method path version headers body request request' response
        chunks printable line e plain refused answered pushes printed =
      let ops = parser_ops h2 feed_data authority in
      let c = connection_made ops t (handle_connection shared start) in
      let (q, received) =
        receives_http1 handler shared t start h method path version headers body request printable
          line e plain refused in
      let ready : Connection (AnyParser H) =
        add_futures false (request ∷ [])
          (record c { parsers = q ∷ http1 ∷ http_tools ∷ []; chosen = some 1 }) in
      let response' : Response = record response { headers = with_length response } in
      let done =
        run_future_written ops handler (first_future request) request' response response' chunks t 1
          http1 http1 ready refl refl answered (ap (print_http1 http1 response) printed) pushes
          refl in
      (
        ap (λ r. r.0) received,
        ap (λ r. r.1.futures) received,
        ap (λ r. (run_future ops handler (first_future request) r.1).futures) received
            ∙ ap (λ x. x.futures) done,
        ap (λ r. (run_future ops handler (first_future request) r.1).transport) received
            ∙ ap (λ x. x.transport) done,
      )
