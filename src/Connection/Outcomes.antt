-- ===== src/Connection/Outcomes.antt =====
-- levin/core/connection.py: what a client gets for a request, whatever the handler and the parser do.
use levin.Prelude.{
  ℕ, zero, suc, ◌≡◌, refl, sym, ap, ◌∙◌, Bool, true, false, not, ◌&&◌, Option, none, some, List, [],
  ◌∷◌, ◌++◌, is_empty, get_elem?, append-nil, if◌then◌else◌,
}
use levin.Prelude
use levin.Bytes.{Bytes}
use levin.Result.{Error, Result, ok, err}
use levin.Common.{Request, Response}
use levin.Connection.{
  ParserOps, Connection, Future, Transport, Handler, ◌and_then◌, failed, returned, run_future,
  offer_transport, remove_future, handle_request, answer, push_after, settle, done_callback,
  outcome_of, report, write_500, write_sorry, write_response, write_parsed, raise_after, write_all,
  supports_push, parser_of, chosen_parser, is_open,
}
use levin.Connection.Serve.{on_transport, write_response_written}

-- A parser that prints a response as `print` says, whole or not at all, that keeps no state, and that has no
-- support for pushes.
pub record IsPrinter {P : Type 0} (ops : ParserOps P) (p : P)
    (print : Response → Result (List Bytes)) : Type 0 where
  pub prints :
      (response : Response) (request : Request) (chunks : List Bytes)
      → print response ≡ ok chunks
      → (response' : Response) × (ops.handle_response p response request
          ≡ (chunks, none, response', p))
  pub refuses :
      (response : Response) (request : Request) (e : Error)
      → print response ≡ err e
      → (response' : Response) × (ops.handle_response p response request
          ≡ ([], some e, response', p))
  pub pushes : ops.push_support p ≡ false

-- What the client is to get: the response, printed, or, where the handler or the printing raised, `sorry`.
abbrev pub printed_or : List Bytes → Result (List Bytes) → List Bytes
printed_or sorry (ok chunks) = chunks
printed_or sorry (err e) = sorry

abbrev pub answer_of : (Response → Result (List Bytes)) → List Bytes → Result Response → List Bytes
answer_of print sorry (err e) = sorry
answer_of print sorry (ok response) = printed_or sorry (print response)

set-same {ℓ} :
    {A : Type ℓ} (xs : List A) (i : ℕ) (x : A) → get_elem? xs i ≡ some x → Prelude.set xs i x ≡ xs
set-same [] zero x h = refl
set-same [] (suc i) x h = refl
set-same (y ∷ xs) zero x h = cc h
set-same (y ∷ xs) (suc i) x h = ap (λ ys. y ∷ ys) (set-same xs i x h)

and_false : (b : Bool) → (b && false) ≡ false
and_false true = refl
and_false false = refl

module _ {P : Type 0} (ops : ParserOps P) (handler : Handler)
    (print : Response → Result (List Bytes)) (i : ℕ) (p : P) (t : Transport)
    (printer : IsPrinter ops p print) (still_open : t.closing ≡ false) where
  -- The connection is open, and its parser is `p`.
  pub record IsReady (c : Connection P) : Type 0 where
    pub transported : c.transport ≡ some t
    pub chosen : c.chosen ≡ some i
    pub placed : get_elem? c.parsers i ≡ some p

  ready-parser_of : (c : Connection P) → IsReady c → parser_of c ≡ some (i, p)
  unfolding parser_of
  ready-parser_of c h = ap (chosen_parser c) h.chosen ∙ rw (chosen_parser, h.placed) refl

  unset : (c : Connection P) → IsReady c → record c { parsers = Prelude.set c.parsers i p } ≡ c
  unset c h = ap (λ (ps : List P). record c { parsers = ps }) (set-same c.parsers i p h.placed)

  written :
      (request : Request) (response : Response) (chunks : List Bytes) (c : Connection P)
      → IsReady c
      → print response ≡ ok chunks
      → (write_response ops response request c).0 ≡ (none, on_transport t chunks c)
  written request response chunks c h e =
      let (response', r) = printer.prints response request chunks e in
      write_response_written ops handler request response response' chunks t i p p c h.transported
        (ready-parser_of c h) r
      ∙ ap (λ (d : Connection P). (none, on_transport t chunks d)) (unset c h)

  refused :
      (request : Request) (response : Response) (e : Error) (c : Connection P)
      → IsReady c
      → print response ≡ err e
      → (write_response ops response request c).0 ≡ (some e, c)
  unfolding write_response write_all raise_after write_parsed
  refused request response e c h k =
      let (response', r) = printer.refuses response request e k in
      ap (λ (o : Option (ℕ × P)). (write_parsed ops response request c o).0) (ready-parser_of c h)
      ∙ rw r (ap (λ (d : Connection P). (some e, d)) (unset c h))

  push_nothing :
      (response : Response) (request : Request) (c : Connection P)
      → parser_of c ≡ some (i, p)
      → push_after ops handler response request c ≡ (none, c)
  unfolding push_after supports_push
  push_nothing response request c h =
      rw (h, printer.pushes, and_false (not (is_empty response.pushes))) refl

  -- What the coroutine leaves: what was written and its future gone.
  abbrev pub Leaves : Future → List Bytes → Connection P → Connection P → Type 0
  Leaves future chunks c done =
      (done.transport ≡ some (record t { written = t.written ++ chunks }))
      × (done.futures ≡ remove_future future.ident c.futures)

  settle_returned :
      (future : Future) (chunks : List Bytes) (c : Connection P)
      → future.closes ≡ false
      → Leaves future chunks c (settle ops returned future (on_transport t chunks c))
  unfolding settle done_callback report
  settle_returned future chunks c stays = rw stays (refl, refl)

  write_500_opened :
      (request : Request) (c : Connection P)
      → IsReady c
      → write_500 ops request c ≡ write_sorry ops request c
  unfolding write_500
  write_500_opened request c h =
      ap (λ (b : Bool). if b then write_sorry ops request c else c)
        (ap is_open h.transported ∙ ap not still_open)

  settle_failed :
      (e : Error) (future : Future) (sorry : List Bytes) (c : Connection P)
      → IsReady c
      → future.closes ≡ false
      → print c.response_500 ≡ ok sorry
      → Leaves future sorry c (settle ops (failed e) future c)
  unfolding settle done_callback report write_sorry
  settle_failed e future sorry c h stays printed =
      let wrote = written future.request c.response_500 sorry c h printed in
      let reported = write_500_opened future.request c h in
      rw (stays, reported)
        (ap (λ w. w.1.transport) wrote, ap (λ w. remove_future future.ident w.1.futures) wrote)

  leave :
      (a : Result Response × Request) (future : Future) (sorry : List Bytes) (c : Connection P)
      → IsReady c
      → future.closes ≡ false
      → print c.response_500 ≡ ok sorry
      → let (e, c') = answer ops handler a c in
        Leaves future
          (answer_of print sorry a.0)
          c
          (settle ops (outcome_of ops handler e) future c')
  unfolding answer outcome_of
  leave (err e, request) future sorry c h stays printed =
      settle_failed e future sorry c h stays printed
  leave (ok response, request) future sorry c h stays printed = printing (print response) refl
    where
      printing :
          (x : Result (List Bytes))
          → print response ≡ x
          → let (e, c') = answer ops handler (ok response, request) c in
            Leaves future
              (printed_or sorry (print response))
              c
              (settle ops (outcome_of ops handler e) future c')
      printing (ok chunks) k =
          let went : answer ops handler (ok response, request) c ≡ (none, on_transport t chunks c) =
            ap (λ w. w and_then push_after ops handler response request)
              (written request response chunks c h k)
            ∙ push_nothing response request (on_transport t chunks c) (ready-parser_of c h) in
          rw (went, k) (settle_returned future chunks c stays)
      printing (err e) k =
          let went : answer ops handler (ok response, request) c ≡ (some e, c) =
            ap (λ w. w and_then push_after ops handler response request)
              (refused request response e c h k) in
          rw (went, k) (settle_failed e future sorry c h stays printed)

  -- On an open connection whose chosen parser prints a response whole or not at all and takes no pushes: a
  -- coroutine whose future keeps the connection open writes exactly one answer, the response that the handler
  -- returned, printed, or, where the handler raised or the parser cannot print what it returned, the
  -- connection's response of status 500, which can be printed; and its future is gone.
  pub run_future_answers :
      (future : Future) (sorry : List Bytes) (c : Connection P)
      → IsReady c
      → future.closes ≡ false
      → print c.response_500 ≡ ok sorry
      → Leaves future
          (answer_of print sorry (handler (offer_transport future.request)).0)
          c
          (run_future ops handler future c)
  unfolding run_future handle_request
  run_future_answers future sorry c h stays printed =
      leave (handler (offer_transport future.request)) future sorry c h stays printed
