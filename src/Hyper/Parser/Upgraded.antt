-- ===== src/Hyper/Parser/Upgraded.antt =====
-- levin/core/parsers/hyper.py: an HTTP/1 request that asks for the upgrade to h2c.
use levin.Prelude.{ℕ, ◌≡◌, refl, ap, ◌∙◌, true, false, none, some, List, [], ◌∷◌, ◌++◌}
use levin.Bytes.{Bytes, codes, contains, join, decimal, capitalize}
use levin.Result.{ok}
use levin.Dict.{lookup}
use levin.Common.{Request, new_response, create_headers_map}
use levin.Http
use levin.Http.{Parsed, crlf, with_length, header_line, body_chunks}
use levin.Http.Statuses.{http_statuses, lookup_status}
use levin.Hyper.{H2Ops}
use levin.Hyper.Parser.{
  Parser, asks_h2c, upgrade_request, switching, handle_http1_to_http2, upgrade_conn, after_upgrade,
  handle_http1, accept_upgrade, take_events, handle_request,
}

-- The head of the response to the upgrade, but for its last line end
abbrev switching_head : Bytes
switching_head = codes "HTTP/1.1 101 Switching Protocols\r\nConnection: Upgrade\r\nUpgrade: h2c\r\n"

-- The head that the client gets
abbrev pub switching_text : Bytes
switching_text = switching_head ++ crlf

switching_printed :
    (chunks : List Bytes) × (Http.handle_response switching ≡ ok chunks)
    × (join [] chunks ≡ switching_head)
switching_printed = (
  codes "HTTP/1.1 101 Switching Protocols\r\n"
      ∷ codes "Connection: Upgrade\r\nUpgrade: h2c"
      ∷ codes "\r\n"
      ∷ [],
  unfold Http.handle_response new_response lookup_status http_statuses with_length header_line
        body_chunks decimal join capitalize create_headers_map in
      refl,
  unfold join in refl,
)

asks_h2c_lem :
    (request : Request) (b : ℕ) (settings : Bytes)
    → lookup (codes "upgrade") request.headers ≡ some (codes "h2c")
    → lookup (codes "http2-settings") request.headers ≡ some (b ∷ settings)
    → asks_h2c request ≡ true
unfolding asks_h2c
asks_h2c_lem request b settings u s = rw (asks_h2c, u, s) refl

http1_to_http2-upgrade :
    (input : Bytes) (parsed : Parsed) (request : Request)
    → contains (codes "HTTP") input ≡ true
    → Http.handle_request input ≡ ok parsed
    → parsed.requests ≡ request ∷ []
    → asks_h2c request ≡ true
    → handle_http1_to_http2 input ≡ ok (some (record request { stream = 1 }), switching_head)
unfolding handle_http1_to_http2 upgrade_request
http1_to_http2-upgrade input parsed request h e one asks =
    let (chunks, printed, joined) = switching_printed in
    rw (h, e)
      (ap upgrade_request one
        ∙ rw (asks, printed)
            (ap (λ (x : Bytes). ok (some (record request { stream = 1 }), x)) joined))

upgrade_conn-settings :
    {H : Type 0} (h2 : H2Ops H) (request : Request) (settings : Bytes) (x : ℕ) (bytes : Bytes)
    (h : H)
    → lookup (codes "http2-settings") request.headers ≡ some settings
    → upgrade_conn h2 (ok (some request, x ∷ bytes)) h
      ≡ after_upgrade h2 request
          (x ∷ bytes)
          (h2.initiate_upgrade_connection settings (h2.clear_outbound_data_buffer h))
unfolding upgrade_conn
upgrade_conn-settings h2 request settings x bytes h s = rw (upgrade_conn, s) refl

-- The data of an HTTP/1 request that asks for the upgrade, with settings that h2 accepts, is answered with the
-- head of a response 101 and what h2 then has to send; the request is that of stream 1.
pub handle_request-upgrade :
    {H : Type 0} (h2 : H2Ops H) (input : Bytes) (p : Parser H) (h h' : H) (parsed : Parsed)
    (request : Request) (b : ℕ) (settings : Bytes)
    → h2.receive_data input p.conn ≡ (none, h)
    → contains (codes "HTTP") input ≡ true
    → Http.handle_request input ≡ ok parsed
    → parsed.requests ≡ request ∷ []
    → lookup (codes "upgrade") request.headers ≡ some (codes "h2c")
    → lookup (codes "http2-settings") request.headers ≡ some (b ∷ settings)
    → h2.initiate_upgrade_connection (b ∷ settings) (h2.clear_outbound_data_buffer h) ≡ (none, h')
    → handle_request h2 input p ≡ (
      ok (record {
        to_send = some (switching_text ++ (h2.data_to_send h').0);
        requests = record request { stream = 1 } ∷ [];
        close = false;
      }),
      record { conn = (h2.data_to_send h').1; streams = p.streams },
    )
unfolding handle_request take_events handle_http1
handle_request-upgrade h2 input p h h' parsed request b settings refused http e one u s initiated =
    let upgraded = record request { stream = 1 } in
    ap (take_events h2 input p.streams) refused
    ∙ ap (λ r. accept_upgrade h2 p.streams (upgrade_conn h2 r h))
        (http1_to_http2-upgrade input parsed request http e one
          (asks_h2c_lem request b settings u s))
    ∙ ap (accept_upgrade h2 p.streams) (
        upgrade_conn-settings h2 upgraded (b ∷ settings) 72
          (codes "TTP/1.1 101 Switching Protocols\r\nConnection: Upgrade\r\nUpgrade: h2c\r\n") h s
        ∙ ap (after_upgrade h2 upgraded switching_head) initiated)
    ∙ unfold accept_upgrade after_upgrade in refl
