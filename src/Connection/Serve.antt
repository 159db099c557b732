-- ===== src/Connection/Serve.antt =====
-- levin/core/connection.py: one request and its answer.
use levin.Prelude.{
  ℕ, suc, ◌+◌, ◌≡◌, refl, sym, ap, ◌∙◌, Bool, false, Option, none, some, List, [], ◌∷◌, ◌++◌,
  append_assoc, append-nil, is_empty, ◌==◌, ==_refl,
}
use levin.Prelude
use levin.Bytes.{Bytes}
use levin.Result.{Error, Result, ok}
use levin.Common.{Request, Response}
use levin.Connection.{
  ParserOps, Connection, Future, Transport, Handler, ◌and_then◌, raise_after, put_written,
  write_all, write_parsed, write_response, parser_of, parse, data_received, take_parsed,
  accept_parsed, add_futures, send, offer_transport, answer, push_after, handle_request, run_future,
  outcome_of, settle, done_callback, report, remove_future,
}

module _ {P : Type 0} where
  abbrev pub on_transport : Transport → List Bytes → Connection P → Connection P
  on_transport t chunks c = record c {
    transport = some (record t { written = t.written ++ chunks });
  }

  write_all_lem :
      (t : Transport) (chunks : List Bytes) (c : Connection P)
      → c.transport ≡ some t
      → write_all chunks c ≡ (none, on_transport t chunks c)
  unfolding write_all put_written
  write_all_lem t [] c e =
      ap (λ (o : Option Transport). (none, record c { transport = o }))
        (e ∙ ap (λ (w : List Bytes). some (record t { written = w })) (sym (append-nil t.written)))
  write_all_lem t (chunk ∷ chunks) c e =
      let t' : Transport = record t { written = t.written ++ chunk ∷ [] } in
      ap (λ (o : Option Transport). put_written chunk c o and_then write_all chunks) e
      ∙ write_all_lem t' chunks (record c { transport = some t' }) refl
      ∙ ap (λ (w : List Bytes). (none, record c { transport = some (record t { written = w }) }))
          (append_assoc t.written (chunk ∷ []) chunks)

module _ {P : Type 0} (ops : ParserOps P) (handler : Handler) where
  -- One request, nothing to send: one future more.
  pub data_received_one :
      (input : Bytes) (c d : Connection P) (request : Request)
      → parse ops input c
        ≡ (some (ok (record { to_send = some []; requests = request ∷ []; close = false })), d)
      → data_received ops input c ≡ (none, add_futures false (request ∷ []) d)
  unfolding data_received take_parsed send accept_parsed
  data_received_one input c d request e = ap (take_parsed ops) e

  pub write_response_written :
      (request : Request) (response response' : Response) (chunks : List Bytes) (t : Transport)
      (i : ℕ) (p p' : P) (c : Connection P)
      → c.transport ≡ some t
      → parser_of c ≡ some (i, p)
      → ops.handle_response p response request ≡ (chunks, none, response', p')
      → (write_response ops response request c).0
        ≡ (none, on_transport t chunks (record c { parsers = Prelude.set c.parsers i p' }))
  unfolding write_response write_parsed
  write_response_written request response response' chunks t i p p' c open_transport e r =
      ap (λ (o : Option (ℕ × P)). (write_parsed ops response request c o).0) e
      ∙ rw r (
          ap (λ (w : Option Error × Connection P). w and_then raise_after none)
            (write_all_lem t chunks (record c { parsers = Prelude.set c.parsers i p' })
              open_transport))

  pub handle_request_written :
      (request request' : Request) (response response' : Response) (chunks : List Bytes)
      (t : Transport) (i : ℕ) (p p' : P) (c : Connection P)
      → c.transport ≡ some t
      → parser_of c ≡ some (i, p)
      → handler (offer_transport request) ≡ (ok response, request')
      → ops.handle_response p response request' ≡ (chunks, none, response', p')
      → response.pushes ≡ []
      → handle_request ops handler request c
        ≡ (none, on_transport t chunks (record c { parsers = Prelude.set c.parsers i p' }))
  unfolding handle_request answer write_response write_parsed push_after
  handle_request_written request request' response response' chunks t i p p' c open_transport e h r
        pushes =
      ap (λ (a : Result Response × Request). answer ops handler a c) h
      ∙ ap
          (λ (w : Option Error × Connection P). w and_then push_after ops handler response request')
          (write_response_written request' response response' chunks t i p p' c open_transport e r)
      ∙ rw pushes refl

  -- The coroutine answers, and its future is done and gone.
  pub run_future_written :
      (future : Future) (request' : Request) (response response' : Response) (chunks : List Bytes)
      (t : Transport) (i : ℕ) (p p' : P) (c : Connection P)
      → c.transport ≡ some t
      → parser_of c ≡ some (i, p)
      → handler (offer_transport future.request) ≡ (ok response, request')
      → ops.handle_response p response request' ≡ (chunks, none, response', p')
      → response.pushes ≡ []
      → future.closes ≡ false
      → run_future ops handler future c
        ≡ on_transport t chunks (record c {
          parsers = Prelude.set c.parsers i p';
          futures = remove_future future.ident c.futures;
        })
  unfolding run_future settle done_callback report outcome_of
  run_future_written future request' response response' chunks t i p p' c open_transport e h r
        pushes stays =
      ap (λ (o : Option Error × Connection P). settle ops (outcome_of ops handler o.0) future o.1)
        (handle_request_written future.request request' response response' chunks t i p p' c
          open_transport e h r pushes)
      ∙ rw stays refl
