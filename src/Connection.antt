-- ===== src/Connection.antt =====
-- levin/core/connection.py: one client's connection. The parsers, the application's handler and the
-- transport's calls are the environment: parsers and handler are parameters, and the transport is the list
-- of what was written to it and whether it closes. A coroutine runs from its start to its end in one
-- step, so that the interleavings are the orders of the events.
pub mod Sweep
pub mod Futures
pub mod Choice
pub mod Invariant
pub mod Receive
pub mod Respond
pub mod Serve
pub mod Outcomes
pub mod Drain
pub mod Tests
use levin.Prelude.{
  ℕ, zero, suc, ◌+◌, Bool, true, false, not, ◌&&◌, Option, none, some, List, [], ◌∷◌, ◌++◌, ◌==◌,
  if◌then◌else◌, is_empty, length, get_elem?,
}
use levin.Prelude
use levin.Bytes.{Bytes, codes}
use levin.Result.{Error, Result, ok, err, parse_error, type_error, attribute_error, close_exception}
use levin.Common.{Request, Response, Push, new_request, new_response, set, lazy, get_transport_info}
use levin.Http.{Parsed}

-- The parsers' methods. A generator of chunks is the chunks and the exception that it ends with, if any,
-- beside the response, to whose headers it writes.
pub record ParserOps (P : Type 0) : Type 0 where
  pub connect : P → P
  pub handle_request : P → Bytes → Result Parsed × P
  pub handle_response : P → Response → Request → List Bytes × Option Error × Response × P
  pub push_support : P → Bool

-- A future of `run_coroutine_threadsafe`, with its request; `closes` says that `_close_callback` has been
-- added behind `_done_callback`.
pub record Future : Type 0 where
  pub ident : ℕ
  pub request : Request
  pub closes : Bool

pub record Transport : Type 0 where
  pub written : List Bytes
  pub closing : Bool
  pub is_ssl : Bool

-- `chosen` is the place of `_parser` in `_parsers`. `response_500` is the module's object, which every
-- connection shares, and to whose headers the parsers write: a connection gets it as the others left it.
pub record Connection (P : Type 0) : Type 0 where
  pub parsers : List P
  pub chosen : Option ℕ
  pub transport : Option Transport
  pub futures : List Future
  pub next_future : ℕ
  pub response_500 : Response

-- How a future is done.
pub data Outcome : Type 0 where
  returned : Outcome
  cancelled : Outcome
  failed : Error → Outcome

-- Connection._get_future_exception(future), of a future that is done
abbrev get_future_exception : Outcome → Option Error
get_future_exception returned = none
get_future_exception cancelled = none
get_future_exception (failed e) = some e

abbrev pub Handler : Type 0
Handler = Request → Result Response × Request

-- `response_500` when the module is loaded
unfoldable pub sorry_response : Response
unfolding new_response
sorry_response = new_response 500 (codes "Sorry") []

-- self._futures.remove(future)
unfoldable pub remove_future : ℕ → List Future → List Future
remove_future ident [] = []
remove_future ident (f ∷ fs) = if f.ident == ident then fs else f ∷ remove_future ident fs

-- self._transport and not self._transport.is_closing()
abbrev pub is_open : Option Transport → Bool
is_open none = false
is_open (some t) = not t.closing

module _ {P : Type 0} where
  -- Connection.__init__; `shared` is the module's `response_500` as it then is.
  unfoldable pub new_connection : (shared : Response) → List P → Connection P
  new_connection shared parsers = record {
    parsers = parsers;
    chosen = none;
    transport = none;
    futures = [];
    next_future = 0;
    response_500 = shared;
  }

  -- `e; rest`, where `e` may have raised
  infixl 10 ◌and_then◌
  abbrev pub ◌and_then◌ :
      Option Error × Connection P
      → (Connection P → Option Error × Connection P)
      → Option Error × Connection P
  (none, c) and_then f = f c
  (some e, c) and_then f = (some e, c)

  put_written : Bytes → Connection P → Option Transport → Option Error × Connection P
  put_written bytes c none = (some attribute_error, c)
  put_written bytes c (some t) =
      (none, record c { transport = some (record t { written = t.written ++ bytes ∷ [] }) })

  -- Connection.write(data)
  unfoldable pub write : Bytes → Connection P → Option Error × Connection P
  unfolding put_written
  write bytes c = put_written bytes c c.transport

  unfoldable pub write_all : List Bytes → Connection P → Option Error × Connection P
  unfolding write
  write_all [] c = (none, c)
  write_all (chunk ∷ chunks) c = write chunk c and_then write_all chunks

  -- self._transport.close()
  unfoldable pub close_transport : Connection P → Connection P
  close_transport c = elim c.transport [
    | none ↦ c
    | some t ↦ record c { transport = some (record t { closing = true }) }
  ]

  chosen_parser : Connection P → Option ℕ → Option (ℕ × P)
  chosen_parser c none = none
  chosen_parser c (some i) = elim (get_elem? c.parsers i) [ none ↦ none | some p ↦ some (i, p) ]

  -- self._parser
  unfoldable pub parser_of : Connection P → Option (ℕ × P)
  unfolding chosen_parser
  parser_of c = chosen_parser c c.chosen

  -- The loop over the requests: a future for each, with its callback. `closing` marks the last one, to
  -- which `_close_callback` is added after the loop.
  unfoldable pub add_futures : Bool → List Request → Connection P → Connection P
  add_futures closing [] c = c
  add_futures closing (request ∷ requests) c =
      let future : Future = record {
        ident = c.next_future;
        request = request;
        closes = closing && is_empty requests;
      } in
      add_futures closing requests
        (record c { futures = c.futures ++ future ∷ []; next_future = c.next_future + 1 })

  -- `if _data: self.write(_data)`
  send : Option Bytes → Connection P → Option Error × Connection P
  unfolding write
  send none c = (none, c)
  send (some []) c = (none, c)
  send (some (b ∷ bytes)) c = write (b ∷ bytes) c

  raise_after : Option Error → Connection P → Option Error × Connection P
  raise_after e c = (e, c)

module _ {P : Type 0} (ops : ParserOps P) where
  write_parsed :
      Response → Request → Connection P → Option (ℕ × P) → (Option Error × Connection P) × Response
  unfolding write_all raise_after
  write_parsed response request c none = ((some attribute_error, c), response)
  write_parsed response request c (some (i, p)) =
      let (chunks, e, response', p') = ops.handle_response p response request in
      (
        (write_all chunks (record c { parsers = Prelude.set c.parsers i p' })
            and_then raise_after e),
        response',
      )

  -- Connection.write_response(response, request), and the response with the headers that the parser wrote.
  unfoldable pub write_response :
      Response → Request → Connection P → (Option Error × Connection P) × Response
  unfolding write_parsed parser_of
  write_response response request c = write_parsed response request c (parser_of c)

  write_sorry : Request → Connection P → Connection P
  unfolding write_response
  write_sorry request c =
      let ((e, c'), response) = write_response c.response_500 request c in
      record c' { response_500 = response }

  -- Connection._write_500(request); what it raises ends in the log of the future's callbacks.
  unfoldable pub write_500 : Request → Connection P → Connection P
  unfolding write_sorry
  write_500 request c = if is_open c.transport then write_sorry request c else c

  abbrev report_exception : Option Error → Request → Connection P → Connection P
  unfolding write_500
  report_exception none request c = c
  report_exception (some e) request c = write_500 request c

  -- What `_done_callback` does before its `finally`.
  report : Outcome → Request → Connection P → Connection P
  unfolding write_500
  report returned request c = report_exception (get_future_exception returned) request c
  report cancelled request c = write_500 request c
  report (failed e) request c = report_exception (get_future_exception (failed e)) request c

  -- Connection._done_callback(future, request)
  unfoldable pub done_callback : Outcome → Future → Connection P → Connection P
  unfolding report remove_future
  done_callback outcome future c =
      let c' = report outcome future.request c in
      record c' { futures = remove_future future.ident c'.futures }

  -- `for future in self._futures: ...`, where the body makes the future done: its callbacks run at once,
  -- remove it from the list that is iterated, and may close the connection, whose loop runs inside. The
  -- iteration goes on at the next place of the list as it then is. `zero` rounds left end it.
  unfoldable pub sweep : ℕ → Outcome → ℕ → Connection P → Connection P
  unfolding done_callback close_transport
  sweep zero outcome i c = c
  sweep (suc f) outcome i c = elim (get_elem? c.futures i) [
    | none ↦ c
    | some future ↦
        let done = done_callback outcome future c in
        sweep f outcome (suc i) (elim future.closes [
          | true ↦ sweep f (failed close_exception) 0 (close_transport done)
          | false ↦ done
        ])
  ]

  -- Connection.connection_lost(exc); one round more than there are futures is enough.
  unfoldable pub connection_lost : Connection P → Connection P
  unfolding sweep
  connection_lost c = sweep (suc (length c.futures)) cancelled 0 c

  close_with : Connection P → Option Transport → Option Error × Connection P
  unfolding sweep
  close_with c none = (some attribute_error, c)
  close_with c (some t) =
      (none, sweep (suc (length c.futures)) (failed close_exception) 0 (close_transport c))

  -- Connection.close(), which raises where there is no transport yet.
  unfoldable pub close : Connection P → Option Error × Connection P
  unfolding close_with
  close c = close_with c c.transport

  -- A future is done: `_done_callback`, and `_close_callback` where it was added.
  unfoldable pub settle : Outcome → Future → Connection P → Connection P
  unfolding done_callback close
  settle outcome future c =
      let done = done_callback outcome future c in if future.closes then (close done).1 else done

  connect_all : List P → List P
  connect_all [] = []
  connect_all (p ∷ ps) = ops.connect p ∷ connect_all ps

  -- Connection.connection_made(transport)
  unfoldable pub connection_made : Transport → Connection P → Connection P
  unfolding connect_all
  connection_made t c = record c { transport = some t; parsers = connect_all c.parsers }

  -- One round of the loop of `_parse` at place `i`, with the parsers behind it and the rest of the loop.
  after_try :
      ℕ
      → List P
      → List P × Option (ℕ × Result Parsed)
      → Result Parsed × P
      → List P × Option (ℕ × Result Parsed)
  after_try i ps rest (ok parsed, p) = (p ∷ ps, some (i, ok parsed))
  after_try i ps rest (err parse_error, p) = (p ∷ rest.0, rest.1)
  after_try i ps rest (err e, p) = (p ∷ ps, some (i, err e))

  -- The loop of `_parse`: the parsers afterwards, and the place and the result of the one that did not
  -- raise ParseError.
  unfoldable pub try_parsers : ℕ → List P → Bytes → List P × Option (ℕ × Result Parsed)
  unfolding after_try
  try_parsers i [] input = ([], none)
  try_parsers i (p ∷ ps) input =
      after_try i ps (try_parsers (suc i) ps input) (ops.handle_request p input)

  choose :
      Connection P → List P × Option (ℕ × Result Parsed) → Option (Result Parsed) × Connection P
  choose c (parsers, none) = (none, record c { parsers = parsers })
  choose c (parsers, some (i, ok parsed)) =
      (some (ok parsed), record c { parsers = parsers; chosen = some i })
  choose c (parsers, some (i, err e)) = (some (err e), record c { parsers = parsers })

  parse_with : Bytes → Connection P → Option (ℕ × P) → Option (Result Parsed) × Connection P
  unfolding try_parsers choose
  parse_with input c none = choose c (try_parsers 0 c.parsers input)
  parse_with input c (some (i, p)) =
      let (result, p') = ops.handle_request p input in
      (some result, record c { parsers = Prelude.set c.parsers i p' })

  -- Connection._parse(data): `none` is the None that the function returns where every parser refused.
  unfoldable pub parse : Bytes → Connection P → Option (Result Parsed) × Connection P
  unfolding parse_with parser_of
  parse input c = parse_with input c (parser_of c)

  accept_parsed : Parsed → Connection P → Option Error × Connection P
  unfolding add_futures close
  accept_parsed parsed c =
      if parsed.close && is_empty parsed.requests
      then close c
      else (none, add_futures parsed.close parsed.requests c)

  -- `_data, requests, close = self._parse(data)` raises TypeError on None.
  take_parsed : Option (Result Parsed) × Connection P → Option Error × Connection P
  unfolding send accept_parsed
  take_parsed (none, c) = (some type_error, c)
  take_parsed (some (err e), c) = (some e, c)
  take_parsed (some (ok parsed), c) = send parsed.to_send c and_then accept_parsed parsed

  -- Connection.data_received(data)
  unfoldable pub data_received : Bytes → Connection P → Option Error × Connection P
  unfolding parse take_parsed
  data_received input c = take_parsed (parse input c)

abbrev pub offer_transport : Request → Request
offer_transport request = set (codes "get_transport_info") (lazy get_transport_info) false request

-- Connection.scheme
abbrev scheme : Option Transport → Bytes
scheme none = codes "http"
scheme (some t) = if t.is_ssl then codes "https" else codes "http"

-- The request that `handle_push` makes.
unfoldable pub push_request : Push → Request → Bytes → Request
push_request push request scheme_of =
    new_request push.path push.method (some []) request.headers request.protocol request.stream
      scheme_of

module _ {P : Type 0} (ops : ParserOps P) (handler : Handler) where
  push_answer : Result Response × Request → Connection P → Option Error × Connection P
  push_answer (err e, request) c = (some e, c)
  push_answer (ok response, request) c =
      (write_response ops (record response { push = true }) request c).0

  -- Connection.handle_push(push, request)
  unfoldable pub handle_push : Request → Push → Connection P → Option Error × Connection P
  unfolding push_answer push_request write_response
  handle_push request push c =
      push_answer (handler (offer_transport (push_request push request (scheme c.transport)))) c

  first_error : Option Error → Option Error × Connection P → Option Error × Connection P
  first_error none (e, c) = (e, c)
  first_error (some e) (_, c) = (some e, c)

  -- asyncio.gather: every push runs, and the first exception is raised.
  gather_pushes : Request → List Push → Connection P → Option Error × Connection P
  unfolding handle_push first_error
  gather_pushes request [] c = (none, c)
  gather_pushes request (push ∷ pushes) c =
      let (e, c') = handle_push request push c in first_error e (gather_pushes request pushes c')

  supports_push : Option (ℕ × P) → Bool
  supports_push none = false
  supports_push (some (i, p)) = ops.push_support p

  push_after : Response → Request → Connection P → Option Error × Connection P
  unfolding gather_pushes supports_push parser_of
  push_after response request c =
      if not (is_empty response.pushes) && supports_push (parser_of c)
      then gather_pushes request response.pushes c
      else (none, c)

  answer : Result Response × Request → Connection P → Option Error × Connection P
  unfolding push_after write_response
  answer (err e, request) c = (some e, c)
  answer (ok response, request) c =
      (write_response ops response request c).0 and_then push_after response request

  -- Connection.handle_request(request): what the coroutine raises, and the connection after it.
  unfoldable pub handle_request : Request → Connection P → Option Error × Connection P
  unfolding answer
  handle_request request c = answer (handler (offer_transport request)) c

  outcome_of : Option Error → Outcome
  outcome_of none = returned
  outcome_of (some e) = failed e

  -- A future's coroutine runs, and the future is done with what it raised.
  unfoldable pub run_future : Future → Connection P → Connection P
  unfolding handle_request settle outcome_of
  run_future future c =
      let (e, c') = handle_request future.request c in settle ops (outcome_of e) future c'
