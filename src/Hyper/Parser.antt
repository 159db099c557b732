-- ===== src/Hyper/Parser.antt =====
-- levin/core/parsers/hyper.py: `handle_request`, with the change of an HTTP/1 connection to HTTP/2.
pub mod Plain
pub mod Served
pub mod Upgraded
use levin.Prelude.{
  Bool, false, not, ◌&&◌, Option, none, some, List, [], ◌∷◌, ◌++◌, is_empty, if◌then◌else◌,
}
use levin.Bytes.{Bytes, codes, contains, join, eqb}
use levin.Result.{Error, Result, ok, err, parse_error, key_error, ◌>>=◌}
use levin.Dict.{lookup}
use levin.Common.{Request, Response, new_response}
use levin.Http
use levin.Http.{Parsed, crlf}
use levin.Hyper.{H2Ops, Event, Streams, parse_events}

-- Parser
pub record Parser (H : Type 0) : Type 0 where
  pub conn : H
  pub streams : Streams

-- The test of the headers: the upgrade is to h2c, with settings that are not empty.
unfoldable pub asks_h2c : Request → Bool
asks_h2c request = elim (lookup (codes "upgrade") request.headers) [
  | none ↦ false
  | some upgrade ↦ elim (lookup (codes "http2-settings") request.headers) [
    | none ↦ false
    | some settings ↦ eqb upgrade (codes "h2c") && not (is_empty settings)
  ]
]

abbrev switching : Response
switching =
    new_response 101 []
      ((codes "Connection", codes "Upgrade") ∷ (codes "Upgrade", codes "h2c") ∷ [])

-- `len(requests) == 1` and what is under it
upgrade_request : List Request → Result (Option Request × Bytes)
unfolding asks_h2c Http.handle_response
upgrade_request (request ∷ []) =
    if asks_h2c request
    then (do
      chunks ← Http.handle_response switching
      ok (some (record request { stream = 1 }), join [] chunks))
    else ok (some request, [])
upgrade_request _ = ok (none, [])

-- Parser.handle_http1_to_http2(data)
unfoldable pub handle_http1_to_http2 : Bytes → Result (Option Request × Bytes)
unfolding upgrade_request
handle_http1_to_http2 input =
    if contains (codes "HTTP") input
    then (do parsed ← Http.handle_request input; upgrade_request parsed.requests)
    else ok (none, [])

module _ {H : Type 0} (h2 : H2Ops H) where
  after_upgrade : Request → Bytes → Option Error × H → Result (Bytes × List Request) × H
  after_upgrade request bytes (some e, h) = (err e, h)
  after_upgrade request bytes (none, h) =
      let sent = h2.data_to_send h in (ok (bytes ++ (crlf ++ sent.0), request ∷ []), sent.1)

  -- The end of `_handle_http1`; `request.headers[...]` raises where the header is missing.
  upgrade_conn : Result (Option Request × Bytes) → H → Result (Bytes × List Request) × H
  unfolding after_upgrade
  upgrade_conn (err e) h = (err e, h)
  upgrade_conn (ok (none, bytes)) h = (err parse_error, h)
  upgrade_conn (ok (some request, [])) h = (err parse_error, h)
  upgrade_conn (ok (some request, b ∷ bytes)) h =
      elim (lookup (codes "http2-settings") request.headers) [
        | none ↦ (err key_error, h2.clear_outbound_data_buffer h)
        | some settings ↦
            after_upgrade request (b ∷ bytes)
              (h2.initiate_upgrade_connection settings (h2.clear_outbound_data_buffer h))
      ]

  -- Parser._handle_http1(data)
  unfoldable pub handle_http1 : Bytes → H → Result (Bytes × List Request) × H
  unfolding upgrade_conn
  handle_http1 input h = upgrade_conn (handle_http1_to_http2 input) h

  abbrev parsed_of : Bytes → Result (List Request × Bool) → Result Parsed
  parsed_of bytes (err e) = err e
  parsed_of bytes (ok (requests, close)) =
      ok (record { to_send = some bytes; requests = requests; close = close })

  accept_upgrade : Streams → Result (Bytes × List Request) × H → Result Parsed × Parser H
  accept_upgrade streams (err e, h) = (err e, record { conn = h; streams = streams })
  accept_upgrade streams (ok (bytes, requests), h) = (
    ok (record { to_send = some bytes; requests = requests; close = false }),
    record { conn = h; streams = streams },
  )

  take_events : Bytes → Streams → Option (List Event) × H → Result Parsed × Parser H
  unfolding handle_http1 accept_upgrade
  take_events input streams (none, h) = accept_upgrade streams (handle_http1 input h)
  take_events input streams (some events, h) =
      let flushed = h2.data_to_send h in
      let result = parse_events events ([], false) streams in
      (parsed_of flushed.0 result.0, record { conn = flushed.1; streams = result.1 })

  -- Parser.handle_request(data)
  unfoldable pub handle_request : Bytes → Parser H → Result Parsed × Parser H
  unfolding take_events
  handle_request input p = take_events input p.streams (h2.receive_data input p.conn)

  -- Parser.connect()
  unfoldable pub connect : Parser H → Parser H
  connect p = record p { conn = h2.initiate_connection p.conn }

  -- Parser.push_support
  unfoldable pub push_support : Parser H → Bool
  push_support p = h2.enable_push p.conn
