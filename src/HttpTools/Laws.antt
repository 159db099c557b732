-- ===== src/HttpTools/Laws.antt =====
-- levin/core/parsers/http_tools.py: what the callbacks leave in the request.
use levin.Prelude.{map, ◌≡◌, refl, ap, ◌∙◌, true, Option, some, List, [], ◌∷◌, ◌++◌, All}
use levin.Bytes.{Bytes}
use levin.Result.{Result, ok, err}
use levin.Common.{new_request}
use levin.Http.{Parsed}
use levin.HttpTools.{
  Callback, on_url, on_body, on_header, on_message_complete, fed, Feed, PRequest, empty_request,
  take_callback, take_callbacks, finish_feed, handle_request,
}

-- The callback is not `on_body`.
abbrev pub KeepsBody : Callback → Type 0
KeepsBody (on_body body) = ⊥
KeepsBody _ = Unit

take_callbacks-append :
    (xs ys : List Callback) (request : PRequest)
    → take_callbacks (xs ++ ys) request ≡ take_callbacks ys (take_callbacks xs request)
unfolding take_callbacks
take_callbacks-append [] ys request = refl
take_callbacks-append (callback ∷ xs) ys request =
    take_callbacks-append xs ys (take_callback callback request)

take_callbacks-KeepsBody :
    (ys : List Callback) (request : PRequest)
    → All KeepsBody ys
    → (take_callbacks ys request).body ≡ request.body
unfolding take_callbacks take_callback
take_callbacks-KeepsBody [] request k = refl
take_callbacks-KeepsBody (on_url url ∷ ys) request k =
    take_callbacks-KeepsBody ys (record request { path = some url }) k.1
take_callbacks-KeepsBody (on_body body ∷ ys) request k = absurd k.0
take_callbacks-KeepsBody (on_header name content ∷ ys) request k =
    take_callbacks-KeepsBody ys (take_callback (on_header name content) request) k.1
take_callbacks-KeepsBody (on_message_complete ∷ ys) request k =
    take_callbacks-KeepsBody ys (record request { ready = true }) k.1

abbrev pub bodies : Result Parsed → List (Option Bytes)
bodies (err e) = []
bodies (ok parsed) = map (λ request. request.body) parsed.requests

finish_feed-body :
    (feed : Feed) (request : PRequest)
    → request.ready ≡ true
    → bodies (finish_feed feed fed request) ≡ some request.body ∷ []
unfolding finish_feed new_request
finish_feed-body feed request r = rw r

-- The request's body is what the last body callback brought: where httptools hands the body over in
-- several callbacks and the message is complete, all that came before the last one is lost.
pub handle_request-last_body :
    (feed_data : Bytes → Feed) (input : Bytes) (before after : List Callback) (body : Bytes)
    → (feed_data input).ending ≡ fed
    → (feed_data input).callbacks ≡ before ++ on_body body ∷ after
    → All KeepsBody after
    → (take_callbacks (feed_data input).callbacks empty_request).ready ≡ true
    → bodies (handle_request feed_data input) ≡ some body ∷ []
unfolding handle_request take_callback
handle_request-last_body feed_data input before after body e c k r =
    ap
      (λ ending. bodies (
        finish_feed (feed_data input) ending
          (take_callbacks (feed_data input).callbacks empty_request)))
      e
    ∙ finish_feed-body (feed_data input) (take_callbacks (feed_data input).callbacks empty_request)
        r
    ∙ ap (λ b. some b ∷ [])
        (ap (λ cs. (take_callbacks cs empty_request).body) c
          ∙ ap (λ q. q.body) (take_callbacks-append before (on_body body ∷ after) empty_request)
          ∙ take_callbacks-KeepsBody after
              (take_callback (on_body body) (take_callbacks before empty_request)) k)
