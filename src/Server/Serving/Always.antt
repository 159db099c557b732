-- ===== src/Server/Serving/Always.antt =====
-- A server that answers a client's HTTP/1 request, whatever its application does.
use levin.Prelude.{◌≡◌, refl, ap, ◌∙◌, false, none, some, List, [], ◌∷◌, ◌++◌, ℕ}
use levin.Bytes.{Bytes, codes}
use levin.Bytes.Lines.{IsLine}
use levin.Result.{Result, ok}
use levin.Common.{Request, new_request, Response}
use levin.Http
use levin.Http.{Parsed, with_length, header_line, body_chunks}
use levin.Http.Statuses.{http_statuses, lookup_status}
use levin.Http.Printing.{IsPrintable, print_request, lowered}
use levin.HttpTools.{Feed}
use levin.Hyper.{H2Ops}
use levin.Hyper.Parser
use levin.Hyper.Parser.{asks_h2c}
use levin.Connection.{
  Connection, Transport, Handler, connection_made, data_received, run_future, add_futures,
  offer_transport, remove_future,
}
use levin.Connection.Outcomes.{IsPrinter, answer_of, run_future_answers}
use levin.Server.Serving.{AnyParser, http1, http_tools, parser_ops, print_http1, handle_connection}
use levin.Http.ResponseLaws.{handle_response_known, printed}
use levin.Server.Serving.Requests.{first_future, receives_http1}

-- The object that connections share, whatever headers the parsers have written to it.
pub record IsSorry (shared : Response) : Type 0 where
  pub status : shared.status ≡ 500
  pub body : shared.body ≡ codes "Sorry"

known_500 : lookup_status 500 http_statuses ≡ some (codes "Internal Server Error")
unfolding lookup_status http_statuses
known_500 = refl

sorry_printed :
    (shared : Response)
    → IsSorry shared
    → (sorry : List Bytes) × (Http.handle_response shared ≡ ok sorry)
sorry_printed shared h =
    let phrase = codes "Internal Server Error" in
    (
      printed shared phrase,
      handle_response_known shared phrase
          (ap (λ (n : ℕ). lookup_status n http_statuses) h.status ∙ known_500),
    )

module _ {H : Type 0} (h2 : H2Ops H) (feed_data : Bytes → Feed)
    (authority : Request → Result Bytes) where
  -- The first parser of HTTP/1 prints whole or not at all, and has no pushes.
  http1-IsPrinter : IsPrinter (parser_ops h2 feed_data authority) http1 Http.handle_response
  unfolding parser_ops print_http1
  http1-IsPrinter = record {
    prints = λ response request chunks e.
        (record response { headers = with_length response }, ap (print_http1 http1 response) e);
    refuses = λ response request e k.
        (record response { headers = with_length response }, ap (print_http1 http1 response) k);
    pushes = refl;
  }

  -- A client's printed HTTP/1 request, of one body line, that does not ask for h2c, on a new connection of the
  -- server whose transport is open, where h2 takes the bytes for no HTTP/2, and any handler: no exception is
  -- raised and the one future has that request; when its coroutine has run, no future is left, and exactly
  -- one answer was written: the response that the handler returned, printed, or, where the handler raised or
  -- the HTTP/1 parser cannot print what it returned, the connections' response of status 500 with the body
  -- "Sorry", printed with the headers that it has by then.
  pub answers_http1 :
      (handler : Handler) (shared : Response) (t : Transport) (start h : H)
      (method path version : Bytes) (headers : List (Bytes × Bytes)) (body : Bytes)
      (request : Request)
      → t.closing ≡ false
      → IsSorry shared
      → IsPrintable method path version headers
      → IsLine body
      → request ≡ new_request path method (some body) (lowered headers) version 0 (codes "http")
      → asks_h2c request ≡ false
      → h2.receive_data
          (print_request method path version headers body)
          (h2.initiate_connection start)
        ≡ (none, h)
      → let ops = parser_ops h2 feed_data authority in
        let received =
          data_received ops
            (print_request method path version headers body)
            (connection_made ops t (handle_connection shared start)) in
        let done = run_future ops handler (first_future request) received.1 in
        (sorry : List Bytes) × (Http.handle_response shared ≡ ok sorry)
        × (received.0 ≡ none)
        × (received.1.futures ≡ first_future request ∷ [])
        × (done.futures ≡ [])
        × (done.transport
            ≡ some (record t {
              written =
                  t.written
                  ++ answer_of Http.handle_response sorry (handler (offer_transport request)).0;
            }))
  unfolding connection_made handle_connection parser_ops add_futures remove_future Parser.connect
  answers_http1 handler shared t start h method path version headers body request is_open is_sorry
        printable line e plain refused =
      let ops = parser_ops h2 feed_data authority in
      let c = connection_made ops t (handle_connection shared start) in
      let (q, received) =
        receives_http1 h2 feed_data authority handler shared t start h method path version headers
          body request printable line e plain refused in
      let ready : Connection (AnyParser H) =
        add_futures false (request ∷ [])
          (record c { parsers = q ∷ http1 ∷ http_tools ∷ []; chosen = some 1 }) in
      let (sorry, sorry_is) = sorry_printed shared is_sorry in
      let done =
        run_future_answers ops handler Http.handle_response 1 http1 t http1-IsPrinter is_open
          (first_future request) sorry ready
          (record { transported = refl; chosen = refl; placed = refl }) refl sorry_is in
      (
        sorry,
        sorry_is,
        ap (λ r. r.0) received,
        ap (λ r. r.1.futures) received,
        ap (λ r. (run_future ops handler (first_future request) r.1).futures) received ∙ done.1,
        ap (λ r. (run_future ops handler (first_future request) r.1).transport) received ∙ done.0,
      )
