-- ===== src/Server/Serving/Application.antt =====
-- A server of the default application of levin/app.py, whose handler is the chain of its middlewares.
use levin.Prelude.{◌≡◌, refl, false, none, some, List, [], ◌++◌}
use levin.Bytes.{Bytes, codes}
use levin.Bytes.Lines.{IsLine}
use levin.Result.{Error, Result, ok, err, attribute_error}
use levin.Common.{Request, Response, new_request}
use levin.Http
use levin.Http.Printing.{IsPrintable, print_request, lowered}
use levin.HttpTools.{Feed}
use levin.Hyper.{H2Ops}
use levin.Hyper.Parser.{asks_h2c}
use levin.Connection.{
  Transport, Handler, connection_made, data_received, run_future, offer_transport,
}
use levin.Connection.Outcomes.{answer_of}
use levin.Middleware.{
  Answer, response, mapping, items, text, raw, template, other, World, Out, Callable,
}
use levin.Middleware.Ends.{IsResponse, IsKnown, Ends}
use levin.Middleware.Guards.Kinds.{AlwaysResponds}
use levin.Middleware.Default.{Program, default_components, respond_by}
use levin.Middleware.Default.Answers.{guarded-IsAnswered}
use levin.Server.Serving.{parser_ops, handle_connection}
use levin.Server.Serving.Requests.{first_future}
use levin.Server.Serving.Always.{IsSorry, answers_http1}

-- The connection and the parser read attributes of what the handler returns, which only a Response has.
unfoldable pub to_response : Result Answer → Result Response
to_response (err e) = err e
to_response (ok (response r)) = ok r
to_response (ok _) = err attribute_error

-- `app.handler(request)`, in the world as it is when the request comes; `h` is the default handler.
abbrev pub app_out : Program → Callable → World → Request → Out
app_out program h w request =
    respond_by program default_components h (record w { request = request })

abbrev pub app_handler : Program → Callable → World → Handler
app_handler program h w request =
    let out = app_out program h w request in (to_response out.0, out.1.request)

-- What a client gets where the application's chain ends so; `sorry` is the printed response of status 500.
pub data IsAnsweredBy (sorry : List Bytes) (out : Result Answer) : List Bytes → Type 0 where
  printed :
      (r : Response) (chunks : List Bytes)
      → out ≡ ok (response r)
      → Http.handle_response r ≡ ok chunks
      → IsAnsweredBy sorry out chunks
  chain_raised : (e : Error) → out ≡ err e → IsAnsweredBy sorry out sorry
  not_printable :
      (r : Response) (e : Error)
      → out ≡ ok (response r)
      → Http.handle_response r ≡ err e
      → IsAnsweredBy sorry out sorry

print_or_sorry :
    (sorry : List Bytes) (r : Response) (x : Result (List Bytes))
    → Http.handle_response r ≡ x
    → IsAnsweredBy sorry (ok (response r)) (answer_of Http.handle_response sorry (ok r))
print_or_sorry sorry r (ok chunks) e = rw e (printed r chunks refl e)
print_or_sorry sorry r (err x) e = rw e (not_printable r x refl e)

answer_of-IsAnsweredBy :
    (sorry : List Bytes) (out : Out)
    → Ends IsResponse out
    → IsAnsweredBy sorry out.0 (answer_of Http.handle_response sorry (to_response out.0))
unfolding to_response
answer_of-IsAnsweredBy sorry (err e, w) h = chain_raised e refl
answer_of-IsAnsweredBy sorry (ok (response r), w) h =
    print_or_sorry sorry r (Http.handle_response r) refl
answer_of-IsAnsweredBy sorry (ok (mapping d), w) h = absurd h
answer_of-IsAnsweredBy sorry (ok (items vs), w) h = absurd h
answer_of-IsAnsweredBy sorry (ok (text s), w) h = absurd h
answer_of-IsAnsweredBy sorry (ok (raw b), w) h = absurd h
answer_of-IsAnsweredBy sorry (ok (template path context), w) h = absurd h
answer_of-IsAnsweredBy sorry (ok (other n), w) h = absurd h

module _ {H : Type 0} (h2 : H2Ops H) (feed_data : Bytes → Feed)
    (authority : Request → Result Bytes) where
  -- A client's printed HTTP/1 request, of one body line, that does not ask for h2c, on a new connection of a
  -- server of the default application, whose transport is open and where h2 takes the bytes for no HTTP/2. A
  -- handler that returns gives a Response, a dict, a list or tuple, a str, bytes or a Template, and the setting
  -- `on_error` gives a Response for any exception. When the request's coroutine has run, no future is left, and
  -- one answer was written: the Response that the chain of the components returned, printed, or, where the
  -- chain raised or its Response cannot be printed, the connections' response of status 500 with the body
  -- "Sorry", printed with the headers that it has by then. The chain returns nothing else.
  pub answers_default :
      (program : Program) (handler : Callable) (w : World) (shared : Response) (t : Transport)
      (start h : H) (method path version : Bytes) (headers : List (Bytes × Bytes)) (body : Bytes)
      (request : Request)
      → ((w : World) (h : Callable) → Ends IsKnown (program.env.call h w))
      → AlwaysResponds program.env
      → t.closing ≡ false
      → IsSorry shared
      → IsPrintable method path version headers
      → IsLine body
      → request ≡ new_request path method (some body) (lowered headers) version 0 (codes "http")
      → asks_h2c request ≡ false
      → h2.receive_data
          (print_request method path version headers body)
          (h2.initiate_connection start)
        ≡ (none, h)
      → let ops = parser_ops h2 feed_data authority in
        let received =
          data_received ops
            (print_request method path version headers body)
            (connection_made ops t (handle_connection shared start)) in
        let done =
          run_future ops (app_handler program handler w) (first_future request) received.1 in
        (sorry : List Bytes) × (Http.handle_response shared ≡ ok sorry)
        × (chunks : List Bytes) × IsAnsweredBy sorry
            (app_out program handler w (offer_transport request)).0
            chunks
        × (done.transport ≡ some (record t { written = t.written ++ chunks }))
        × (done.futures ≡ [])
  answers_default program handler w shared t start h method path version headers body request known
        always is_open is_sorry printable line e plain refused =
      let out = app_out program handler w (offer_transport request) in
      let (sorry, sorry_is, quiet, one, gone, wrote) =
        answers_http1 h2 feed_data authority (app_handler program handler w) shared t start h method
          path version headers body request is_open is_sorry printable line e plain refused in
      (
        sorry,
        sorry_is,
        answer_of Http.handle_response sorry (to_response out.0),
        answer_of-IsAnsweredBy sorry out
            (guarded-IsAnswered program known always
              (record w { request = offer_transport request }) handler).1,
        wrote,
        gone,
      )
