-- ===== src/Hyper/Parser/Served.antt =====
-- levin/core/parsers/hyper.py: `handle_request` of data in which a stream begins and ends.
use levin.Prelude.{ℕ, ◌≡◌, ap, ◌∙◌, Bool, false, some, List, [], ◌∷◌, ◌++◌, All}
use levin.Bytes.{Bytes, Str}
use levin.Result.{Result, ok}
use levin.Common.{Request}
use levin.Hyper.{
  H2Ops, Event, Streams, request_received, stream_ended, parse_events, get_request_from_event,
  store, drop_stream,
}
use levin.Hyper.Events.{IsWithin, data_of, with_body}
use levin.Hyper.Streams.{parse_events_stream}
use levin.Hyper.Parser.{Parser, parsed_of, take_events, handle_request}

pub handle_request-stream :
    {H : Type 0} (h2 : H2Ops H) (input : Bytes) (p : Parser H) (h : H) (s : ℕ)
    (headers : List (Str × Str)) (events : List Event) (requests : List Request) (close : Bool)
    (streams : Streams)
    → All (IsWithin s) events
    → parse_events events ([], false) (store s (get_request_from_event s headers) p.streams)
      ≡ (ok (requests, close), streams)
    → h2.receive_data input p.conn
      ≡ (some (request_received s headers ∷ (events ++ stream_ended s ∷ [])), h)
    → handle_request h2 input p ≡ (
      ok (record {
        to_send = some (h2.data_to_send h).0;
        requests = requests ++ with_body (get_request_from_event s headers) (data_of s events) ∷ [];
        close = close;
      }),
      record { conn = (h2.data_to_send h).1; streams = drop_stream s streams },
    )
unfolding handle_request take_events
handle_request-stream h2 input p h s headers events requests close streams within parsed received =
    let flushed = h2.data_to_send h in
    ap (take_events h2 input p.streams) received
    ∙ ap
        (λ (r : Result (List Request × Bool) × Streams).
          (parsed_of h2 flushed.0 r.0, record { conn = flushed.1; streams = r.1 }))
        (parse_events_stream s headers events ([], false) p.streams requests close streams within
          parsed)
