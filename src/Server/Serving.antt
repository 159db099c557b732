-- ===== src/Server/Serving.antt =====
-- levin/core/server.py: `handle_connection`, the connections that a server makes, with the three parsers of
-- levin/core/parsers.
pub mod Requests
pub mod Streams
pub mod Upgrade
pub mod Answers
pub mod Always
pub mod Application
pub mod Tests
use levin.Prelude.{ℕ, Bool, false, Option, none, some, List, [], ◌∷◌}
use levin.Bytes.{Bytes}
use levin.Result.{Error, Result, ok, err}
use levin.Common.{Request, Response}
use levin.Http
use levin.Http.{Parsed, with_length}
use levin.HttpTools
use levin.HttpTools.{Feed}
use levin.Hyper.{H2Ops}
use levin.Hyper.Parser
use levin.Hyper.Send
use levin.Hyper.Send.{Sent, with_content_length}
use levin.Connection.{ParserOps, Connection, new_connection}

-- An object of one of the `parsers_class`; those of HTTP/1 have no state.
pub data AnyParser (H : Type 0) : Type 0 where
  http2 : Parser.Parser H → AnyParser H
  http1 http_tools : AnyParser H

-- The chunks of `handle_response` of the HTTP/1 parser, and the response with the headers that it wrote.
print_http1 {ℓ} :
    {P : Type ℓ} → P → Response → Result (List Bytes) → List Bytes × Option Error × Response × P
print_http1 p response (err e) = ([], some e, record response { headers = with_length response }, p)
print_http1 p response (ok chunks) =
    (chunks, none, record response { headers = with_length response }, p)

-- h2 and httptools are parameters, and so is what `request.get_transport_info` gives to the HTTP/2 parser.
module _ {H : Type 0} (h2 : H2Ops H) (feed_data : Bytes → Feed)
    (authority : Request → Result Bytes) where
  connect_any : AnyParser H → AnyParser H
  connect_any (http2 p) = http2 (Parser.connect h2 p)
  connect_any http1 = http1
  connect_any http_tools = http_tools

  parse_any : AnyParser H → Bytes → Result Parsed × AnyParser H
  parse_any (http2 p) input =
      let (result, p') = Parser.handle_request h2 input p in (result, http2 p')
  parse_any http1 input = (Http.handle_request input, http1)
  parse_any http_tools input = (HttpTools.handle_request feed_data input, http_tools)

  print_any : AnyParser H → Response → Request → List Bytes × Option Error × Response × AnyParser H
  unfolding print_http1
  print_any (http2 p) response request =
      let sent = Send.handle_response h2 authority response request p.conn in
      (
        sent.chunks,
        sent.failure,
        with_content_length h2 response,
        http2 (record p { conn = sent.conn }),
      )
  print_any http1 response request = print_http1 http1 response (Http.handle_response response)
  print_any http_tools response request =
      print_http1 http_tools response (Http.handle_response response)

  -- getattr(parser, "push_support", False)
  supports : AnyParser H → Bool
  supports (http2 p) = Parser.push_support h2 p
  supports _ = false

  -- The parsers' methods.
  unfoldable pub parser_ops : ParserOps (AnyParser H)
  unfolding connect_any parse_any print_any supports
  parser_ops = record {
    connect = connect_any;
    handle_request = parse_any;
    handle_response = print_any;
    push_support = supports;
  }

-- `parser()` for each of the classes; `start` is a new `H2Connection`.
abbrev pub new_parsers : {H : Type 0} → H → List (AnyParser H)
new_parsers start = http2 (record { conn = start; streams = [] }) ∷ http1 ∷ http_tools ∷ []

-- Server.handle_connection(); `shared` is the `response_500` of the connections.
unfoldable pub handle_connection : {H : Type 0} (shared : Response) → H → Connection (AnyParser H)
unfolding new_connection
handle_connection shared start = new_connection shared (new_parsers start)
