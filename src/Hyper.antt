-- ===== src/Hyper.antt =====
-- levin/core/parsers/hyper.py: the HTTP/2 parser's streams and the upgrade from HTTP/1. The connection of
-- the library h2 is a parameter.
pub mod Send
pub mod Body
pub mod Window
pub mod Events
pub mod Streams
pub mod Parser
pub mod Tests
use levin.Prelude.{
  ℕ, Bool, true, false, not, ◌&&◌, ◌||◌, Option, none, some, List, [], ◌∷◌, ◌++◌, ◌==◌,
  if◌then◌else◌, is_empty,
}
use levin.Bytes.{Bytes, Str, codes, eqb, contains, starts_with}
use levin.Bytes.Utf8.{encode}
use levin.Result.{Error, Result, ok, err, parse_error, key_error, type_error, ◌>>=◌}
use levin.Dict.{Dict, lookup}
use levin.Common.{Request, Response, new_request}
use levin.Http
use levin.Http.{Parsed, crlf}

-- h2.events
pub data Event : Type 0 where
  request_received : (stream : ℕ) → List (Str × Str) → Event
  data_received : (stream : ℕ) → Bytes → Event
  stream_ended : (stream : ℕ) → Event
  connection_terminated : Event
  other_event : ℕ → Event

-- What the parser calls of `H2Connection`. `receive_data` gives `none` for a ProtocolError; `push_stream`
-- and `send_data` give false for the exceptions that the parser catches. A window that is negative is 0.
pub record H2Ops (H : Type 0) : Type 0 where
  pub initiate_connection : H → H
  pub receive_data : Bytes → H → Option (List Event) × H
  pub data_to_send : H → Bytes × H
  pub clear_outbound_data_buffer : H → H
  pub initiate_upgrade_connection : Bytes → H → Option Error × H
  pub enable_push : H → Bool
  pub get_next_available_stream_id : H → Result ℕ
  pub push_stream : ℕ → ℕ → List (Bytes × Bytes) → H → Bool × H
  pub end_stream : ℕ → H → Option Error × H
  pub send_headers : ℕ → List (Bytes × Bytes) → H → Option Error × H
  pub local_flow_control_window : ℕ → H → Result ℕ
  pub max_outbound_frame_size : H → ℕ
  pub send_data : ℕ → Bytes → Bool → H → Bool × H

-- `_streams`, a dict with numbers for keys
abbrev pub Streams : Type 0
Streams = List (ℕ × Request)

unfoldable pub find : ℕ → Streams → Option Request
find s [] = none
find s ((t, request) ∷ streams) = if t == s then some request else find s streams

unfoldable pub store : ℕ → Request → Streams → Streams
store s request [] = (s, request) ∷ []
store s request ((t, other) ∷ streams) =
    if t == s then (t, request) ∷ streams else (t, other) ∷ store s request streams

unfoldable pub drop_stream : ℕ → Streams → Streams
drop_stream s [] = []
drop_stream s ((t, other) ∷ streams) =
    if t == s then streams else (t, other) ∷ drop_stream s streams

-- The variables of the loop in `_get_request_from_event`.
pub record Gathered : Type 0 where
  pub method : Bytes
  pub path : Bytes
  pub headers : List (Bytes × Bytes)

-- One round of the loop.
unfoldable pub gather : Str × Str → Gathered → Gathered
gather (name, content) g =
    if starts_with (codes ":") name
    then (if eqb name (codes ":method")
        then record g { method = encode content }
        else (if eqb name (codes ":path") then record g { path = encode content } else g))
    else record g { headers = g.headers ++ (encode name, encode content) ∷ [] }

unfoldable pub gather_all : List (Str × Str) → Gathered → Gathered
unfolding gather
gather_all [] g = g
gather_all (header ∷ headers) g = gather_all headers (gather header g)

-- _get_request_from_event(event)
unfoldable pub get_request_from_event : ℕ → List (Str × Str) → Request
unfolding gather_all
get_request_from_event stream headers =
    let g = gather_all headers (record { method = codes "GET"; path = codes "/"; headers = [] }) in
    new_request g.path g.method (some []) g.headers (codes "HTTP/2") stream (codes "http")

-- `request.body += data`, which raises where the body is None
extend : ℕ → Bytes → Request → Option Bytes → Streams → Result Streams
extend s bytes request none streams = err type_error
extend s bytes request (some body) streams =
    ok (store s (record request { body = some (body ++ bytes) }) streams)

-- `if event.stream_id in self._streams`
add_to_body : ℕ → Bytes → Option Request → Streams → Result Streams
unfolding extend
add_to_body s bytes none streams = ok streams
add_to_body s bytes (some request) streams = extend s bytes request request.body streams

-- What `_parse_event` returns: None, a request, or False.
pub data Answer : Type 0 where
  nothing : Answer
  complete : Request → Answer
  terminated : Answer

-- self._streams.pop(event.stream_id)
pop_stream : ℕ → Option Request → Streams → Result (Answer × Streams)
pop_stream s none streams = err key_error
pop_stream s (some request) streams = ok (complete request, drop_stream s streams)

-- Parser._parse_event(event)
unfoldable pub parse_event : Event → Streams → Result (Answer × Streams)
unfolding add_to_body pop_stream
parse_event (request_received s headers) streams =
    ok (nothing, store s (get_request_from_event s headers) streams)
parse_event (data_received s bytes) streams = do
  streams' ← add_to_body s bytes (find s streams) streams
  ok (nothing, streams')
parse_event (stream_ended s) streams = pop_stream s (find s streams) streams
parse_event connection_terminated streams = ok (terminated, streams)
parse_event (other_event n) streams = ok (nothing, streams)

take_answer : Answer → List Request × Bool → List Request × Bool
take_answer nothing (requests, close) = (requests, close)
take_answer (complete request) (requests, close) = (requests ++ request ∷ [], close)
take_answer terminated (requests, close) = (requests, true)

-- The loop over the events of `handle_request`, from the requests and the flag so far. An event that
-- raises leaves the streams as the events before it did; so does the model, by the last component.
unfoldable pub parse_events :
    List Event → List Request × Bool → Streams → Result (List Request × Bool) × Streams
unfolding parse_event take_answer
parse_events [] found streams = (ok found, streams)
parse_events (event ∷ events) found streams = elim (parse_event event streams) [
  | err e ↦ (err e, streams)
  | ok (answer, streams') ↦ parse_events events (take_answer answer found) streams'
]
