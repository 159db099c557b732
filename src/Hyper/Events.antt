-- ===== src/Hyper/Events.antt =====
-- levin/core/parsers/hyper.py: the table of streams, and what one event does to a stream in it.
use levin.Prelude.{
  ℕ, ◌≡◌, ◌≢◌, refl, sym, ap, ◌∙◌, false, Option, none, some, List, [], ◌∷◌, ◌++◌, arith,
  append-nil, ==_iff, ==_refl, inl, inr, Bool-cases, ◌==◌, if◌then◌else◌,
}
use levin.Bytes.{Bytes}
use mathlib.Core.Bool.{false≢true}
use levin.Result.{Result, ok, err, ◌>>=◌}
use levin.Common.{Request}
use levin.Hyper.{
  Event, request_received, data_received, stream_ended, connection_terminated, other_event, Streams,
  Answer, find, store, drop_stream, parse_event, nothing, extend, add_to_body, pop_stream,
}

-- The bytes that the events bring to the stream `s`.
abbrev pub data_of : ℕ → List Event → Bytes
data_of s [] = []
data_of s (data_received t bytes ∷ events) = (if t == s then bytes else []) ++ data_of s events
data_of s (_ ∷ events) = data_of s events

-- The event neither opens nor ends the stream `s`.
abbrev pub IsWithin : ℕ → Event → Type 0
IsWithin s (request_received t headers) = t ≢ s
IsWithin s (stream_ended t) = t ≢ s
IsWithin s _ = Unit

differ : (t s : ℕ) → t ≢ s → (t == s) ≡ false
differ t s h = ground arith

pub find-store :
    (s : ℕ) (request : Request) (streams : Streams)
    → find s (store s request streams) ≡ some request
unfolding find store
find-store s request [] = rw (==_refl s)
find-store s request ((t, other) ∷ streams) = elim (Bool-cases (t == s)) [
  | inl e ↦ rw (e, e)
  | inr e ↦ rw (e, e) (find-store s request streams)
]

pub find-store_other :
    (s t : ℕ) (request : Request) (streams : Streams)
    → t ≢ s
    → find s (store t request streams) ≡ find s streams
unfolding find store
find-store_other s t request [] h = rw (differ t s h)
find-store_other s t request ((u, other) ∷ streams) h = elim (Bool-cases (u == t)) [
  | inl e ↦ let d : (u == s) ≡ false = differ u s (λ q. h (sym ((==_iff u t).0 e) ∙ q)) in rw (e, d)
  | inr e ↦
      rw e (ap (λ x. if u == s then some other else x) (find-store_other s t request streams h))
]

pub find-drop_stream :
    (s t : ℕ) (streams : Streams) → t ≢ s → find s (drop_stream t streams) ≡ find s streams
unfolding find drop_stream
find-drop_stream s t [] h = refl
find-drop_stream s t ((u, other) ∷ streams) h = elim (Bool-cases (u == t)) [
  | inl e ↦ let d : (u == s) ≡ false = differ u s (λ q. h (sym ((==_iff u t).0 e) ∙ q)) in rw (e, d)
  | inr e ↦ rw e (ap (λ x. if u == s then some other else x) (find-drop_stream s t streams h))
]

abbrev pub with_body : Request → Bytes → Request
with_body request body = record request { body = some body }

abbrev streams_of : Streams → Result (Answer × Streams) → Streams
streams_of streams (ok (answer, streams')) = streams'
streams_of streams (err e) = streams

abbrev with_nothing : Streams → Result (Answer × Streams)
with_nothing streams = ok (nothing, streams)

pop_stream_lem :
    (t : ℕ) (o : Option Request) (streams streams' : Streams) (answer : Answer)
    → pop_stream t o streams ≡ ok (answer, streams')
    → drop_stream t streams ≡ streams'
unfolding pop_stream
pop_stream_lem t none streams streams' answer h = cc
pop_stream_lem t (some request) streams streams' answer h = ap (streams_of streams) h

extend_other :
    (s t : ℕ) (bytes : Bytes) (request : Request) (o : Option Bytes) (streams streams' : Streams)
    (answer : Answer)
    → t ≢ s
    → (extend t bytes request o streams >>= with_nothing) ≡ ok (answer, streams')
    → find s streams' ≡ find s streams
unfolding extend
extend_other s t bytes request none streams streams' answer d h = cc
extend_other s t bytes request (some body) streams streams' answer d h =
    ap (find s) (sym (ap (streams_of streams) h)) ∙ find-store_other s t _ streams d

add_other :
    (s t : ℕ) (bytes : Bytes) (o : Option Request) (streams streams' : Streams) (answer : Answer)
    → t ≢ s
    → (add_to_body t bytes o streams >>= with_nothing) ≡ ok (answer, streams')
    → find s streams' ≡ find s streams
unfolding add_to_body
add_other s t bytes none streams streams' answer d h = ap (find s) (sym (ap (streams_of streams) h))
add_other s t bytes (some request) streams streams' answer d h =
    extend_other s t bytes request request.body streams streams' answer d h

add_same :
    (t : ℕ) (bytes : Bytes) (streams streams' : Streams) (answer : Answer) (request : Request)
    (body : Bytes)
    → find t streams ≡ some (with_body request body)
    → (add_to_body t bytes (find t streams) streams >>= with_nothing) ≡ ok (answer, streams')
    → find t streams' ≡ some (with_body request (body ++ bytes))
unfolding add_to_body extend
add_same t bytes streams streams' answer request body f h =
    ap (find t) (
      sym (
        ap (streams_of streams)
          (sym (ap (λ o. add_to_body t bytes o streams >>= with_nothing) f) ∙ h)))
    ∙ find-store t _ streams

-- One event within a stream adds its bytes.
pub parse_event-find :
    (s : ℕ) (event : Event) (streams streams' : Streams) (answer : Answer) (request : Request)
    (body : Bytes)
    → find s streams ≡ some (with_body request body)
    → IsWithin s event
    → parse_event event streams ≡ ok (answer, streams')
    → find s streams' ≡ some (with_body request (body ++ data_of s (event ∷ [])))
unfolding parse_event
parse_event-find s (request_received t headers) streams streams' answer request body f w h =
    ap (find s) (sym (ap (streams_of streams) h))
    ∙ find-store_other s t _ streams w
    ∙ f
    ∙ ap (λ b. some (with_body request b)) (sym (append-nil body))
parse_event-find s (data_received t bytes) streams streams' answer request body f w h =
    elim (Bool-cases (t == s)) [
      | inl e ↦
          let same : t ≡ s = (==_iff t s).0 e in
          rw (e, append-nil bytes)
            (ap (λ u. find u streams') (sym same)
              ∙ add_same t bytes streams streams' answer request body
                  (ap (λ u. find u streams) same ∙ f) h)
      | inr e ↦
          let apart : t ≢ s = (λ q. false≢true (sym e ∙ (==_iff t s).1 q)) in
          rw (e, append-nil body)
            (add_other s t bytes (find t streams) streams streams' answer apart h ∙ f)
    ]
parse_event-find s (stream_ended t) streams streams' answer request body f w h =
    ap (find s) (sym (pop_stream_lem t (find t streams) streams streams' answer h))
    ∙ find-drop_stream s t streams w
    ∙ f
    ∙ ap (λ b. some (with_body request b)) (sym (append-nil body))
parse_event-find s connection_terminated streams streams' answer request body f w h =
    ap (find s) (sym (ap (streams_of streams) h))
    ∙ f
    ∙ ap (λ b. some (with_body request b)) (sym (append-nil body))
parse_event-find s (other_event n) streams streams' answer request body f w h =
    ap (find s) (sym (ap (streams_of streams) h))
    ∙ f
    ∙ ap (λ b. some (with_body request b)) (sym (append-nil body))

pub data_of-cons :
    (s : ℕ) (event : Event) (events : List Event)
    → data_of s (event ∷ events) ≡ data_of s (event ∷ []) ++ data_of s events
data_of-cons s (request_received t headers) events = refl
data_of-cons s (data_received t bytes) events =
    sym (ap (λ xs. xs ++ data_of s events) (append-nil (if t == s then bytes else [])))
data_of-cons s (stream_ended t) events = refl
data_of-cons s connection_terminated events = refl
data_of-cons s (other_event n) events = refl
