-- ===== src/Hyper/Parser/Plain.antt =====
-- levin/core/parsers/hyper.py: an HTTP/1 request that asks for no upgrade.
use levin.Prelude.{◌≡◌, refl, ap, ◌∙◌, false, Option, none, some, [], ◌∷◌, Bool-cases, inl, inr}
use levin.Bytes.{Bytes, codes, contains}
use levin.Result.{ok, err, parse_error}
use levin.Common.{Request}
use levin.Http
use levin.Http.{Parsed}
use levin.Hyper.{H2Ops}
use levin.Hyper.Parser.{
  Parser, asks_h2c, upgrade_request, handle_http1_to_http2, upgrade_conn, handle_http1,
  accept_upgrade, take_events, handle_request,
}

http1_to_http2-plain :
    (input : Bytes) (parsed : Parsed) (request : Request)
    → Http.handle_request input ≡ ok parsed
    → parsed.requests ≡ request ∷ []
    → asks_h2c request ≡ false
    → (o : Option Request) × (handle_http1_to_http2 input ≡ ok (o, []))
unfolding handle_http1_to_http2 upgrade_request
http1_to_http2-plain input parsed request e one plain =
    elim (Bool-cases (contains (codes "HTTP") input)) [
      | inl h ↦ (some request, rw (h, e) (ap upgrade_request one ∙ rw plain refl))
      | inr h ↦ (none, rw h refl)
    ]

upgrade_conn-none :
    {H : Type 0} (h2 : H2Ops H) (o : Option Request) (h : H)
    → upgrade_conn h2 (ok (o, [])) h ≡ (err parse_error, h)
unfolding upgrade_conn
upgrade_conn-none h2 none h = refl
upgrade_conn-none h2 (some request) h = refl

-- A request that is no HTTP/2 and asks for no upgrade is left to the parsers behind: ParseError is raised.
pub handle_request-plain :
    {H : Type 0} (h2 : H2Ops H) (input : Bytes) (p : Parser H) (h : H) (parsed : Parsed)
    (request : Request)
    → h2.receive_data input p.conn ≡ (none, h)
    → Http.handle_request input ≡ ok parsed
    → parsed.requests ≡ request ∷ []
    → asks_h2c request ≡ false
    → (handle_request h2 input p).0 ≡ err parse_error
unfolding handle_request take_events handle_http1
handle_request-plain h2 input p h parsed request refused e one plain =
    let (o, f) = http1_to_http2-plain input parsed request e one plain in
    ap (λ r. (take_events h2 input p.streams r).0) refused
    ∙ ap (λ r. (accept_upgrade h2 p.streams (upgrade_conn h2 r h)).0) f
    ∙ ap (λ r. (accept_upgrade h2 p.streams r).0) (upgrade_conn-none h2 o h)
    ∙ unfold accept_upgrade in refl
