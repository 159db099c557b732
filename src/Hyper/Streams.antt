-- ===== src/Hyper/Streams.antt =====
-- levin/core/parsers/hyper.py: the requests that the streams gather, event by event.
use levin.Prelude.{
  ℕ, ◌≡◌, ◌⊎◌, refl, sym, ap, ◌∙◌, Bool, some, List, [], ◌∷◌, ◌++◌, append_assoc, append-nil, All,
  inl, inr,
}
use levin.Bytes.{Bytes, Str}
use levin.Result.{Error, Result, ok, err}
use levin.Common.{Request, new_request}
use levin.Hyper.{
  Event, request_received, stream_ended, Streams, Answer, find, store, drop_stream, parse_event,
  parse_events, take_answer, get_request_from_event, pop_stream,
}
use levin.Hyper.Events.{with_body, IsWithin, data_of, parse_event-find, data_of-cons, find-store}

Result-cases {ℓ} :
    {A : Type ℓ} (r : Result A) → ((e : Error) × (r ≡ err e)) ⊎ ((a : A) × (r ≡ ok a))
Result-cases (err e) = inl (e, refl)
Result-cases (ok a) = inr (a, refl)

parse_events-ok :
    (event : Event) (events : List Event) (found : List Request × Bool) (streams : Streams)
    {answered : Answer × Streams}
    → parse_event event streams ≡ ok answered
    → parse_events (event ∷ events) found streams
      ≡ parse_events events (take_answer answered.0 found) answered.1
unfolding parse_events
parse_events-ok event events found streams k = rw (k, parse_events)

parse_events-err :
    (event : Event) (events : List Event) (found : List Request × Bool) (streams : Streams)
    {e : Error}
    → parse_event event streams ≡ err e
    → parse_events (event ∷ events) found streams ≡ (err e, streams)
unfolding parse_events
parse_events-err event events found streams k = rw (k, parse_events)

-- An event at the head that raises ends the loop, so a loop that returned went past it.
parse_events-head :
    (event : Event) (events : List Event) (found found' : List Request × Bool)
    (streams streams' : Streams)
    → parse_events (event ∷ events) found streams ≡ (ok found', streams')
    → (answered : Answer × Streams) × (parse_event event streams ≡ ok answered)
      × (parse_events events (take_answer answered.0 found) answered.1 ≡ (ok found', streams'))
parse_events-head event events found found' streams streams' h =
    elim (Result-cases (parse_event event streams)) [
      | inl (e, k) ↦
          let bad : err e ≡ ok found' =
            ap (λ x. x.0) (sym (parse_events-err event events found streams k) ∙ h) in
          cc
      | inr (answered, k) ↦ (answered, k, sym (parse_events-ok event events found streams k) ∙ h)
    ]

-- The events within a stream add their bytes to its request.
parse_events-find :
    (s : ℕ) (events : List Event) (found found' : List Request × Bool) (streams streams' : Streams)
    (request : Request) (body : Bytes)
    → find s streams ≡ some (with_body request body)
    → All (IsWithin s) events
    → parse_events events found streams ≡ (ok found', streams')
    → find s streams' ≡ some (with_body request (body ++ data_of s events))
unfolding parse_events
parse_events-find s [] found found' streams streams' request body f w h =
    ap (λ x. find s x.1) (sym h) ∙ f ∙ ap (λ b. some (with_body request b)) (sym (append-nil body))
parse_events-find s (event ∷ events) found found' streams streams' request body f w h =
    let (answered, k, rest) = parse_events-head event events found found' streams streams' h in
    parse_events-find s events _ found' answered.1 streams' request (body ++ data_of s (event ∷ []))
      (parse_event-find s event streams answered.1 answered.0 request body f w.0 k) w.1 rest
    ∙ ap (λ b. some (with_body request b))
        (append_assoc body (data_of s (event ∷ [])) (data_of s events)
          ∙ ap (λ xs. body ++ xs) (sym (data_of-cons s event events)))

abbrev found_of : List Request × Bool → Result (List Request × Bool) → List Request × Bool
found_of found (ok found') = found'
found_of found (err e) = found

parse_events-append :
    (xs ys : List Event) (found found' : List Request × Bool) (streams streams' : Streams)
    → parse_events xs found streams ≡ (ok found', streams')
    → parse_events (xs ++ ys) found streams ≡ parse_events ys found' streams'
unfolding parse_events
parse_events-append [] ys found found' streams streams' h =
    ap (λ x. parse_events ys (found_of found x.0) x.1) h
parse_events-append (event ∷ xs) ys found found' streams streams' h =
    let (answered, k, rest) = parse_events-head event xs found found' streams streams' h in
    parse_events-ok event (xs ++ ys) found streams k
    ∙ parse_events-append xs ys _ found' answered.1 streams' rest

parse_events-end :
    (s : ℕ) (requests : List Request) (close : Bool) (streams : Streams) (request : Request)
    → find s streams ≡ some request
    → parse_events (stream_ended s ∷ []) (requests, close) streams
      ≡ (ok (requests ++ request ∷ [], close), drop_stream s streams)
unfolding parse_events parse_event pop_stream take_answer
parse_events-end s requests close streams request f =
    parse_events-ok (stream_ended s) [] (requests, close) streams
      (ap (λ o. pop_stream s o streams) f)

-- A stream's request comes out when the stream ends: from the event that opens the stream `s`, over any
-- events of which none opens or ends `s`, to the event that ends it, the loop gives the requests of the
-- events between and then the request of the opening event, whose body is the bytes of the DATA
-- events of `s` in order, whatever other streams do between; and the stream is forgotten. The condition
-- is that no event between raises.
pub parse_events_stream :
    (s : ℕ) (headers : List (Str × Str)) (events : List Event) (found : List Request × Bool)
    (streams : Streams) (requests : List Request) (close : Bool) (streams' : Streams)
    → All (IsWithin s) events
    → parse_events events found (store s (get_request_from_event s headers) streams)
      ≡ (ok (requests, close), streams')
    → parse_events (request_received s headers ∷ (events ++ stream_ended s ∷ [])) found streams ≡ (
      ok (requests ++ with_body (get_request_from_event s headers) (data_of s events) ∷ [], close),
      drop_stream s streams',
    )
unfolding parse_event get_request_from_event new_request take_answer
parse_events_stream s headers events (before, closing) streams requests close streams' w h =
    parse_events-ok (request_received s headers) (events ++ stream_ended s ∷ []) (before, closing)
      streams refl
    ∙ parse_events-append events (stream_ended s ∷ []) (before, closing) (requests, close)
        (store s (get_request_from_event s headers) streams) streams' h
    ∙ parse_events-end s requests close streams'
        (with_body (get_request_from_event s headers) (data_of s events))
        (parse_events-find s events (before, closing) (requests, close)
          (store s (get_request_from_event s headers) streams) streams'
          (get_request_from_event s headers) []
          (find-store s (get_request_from_event s headers) streams) w h)
