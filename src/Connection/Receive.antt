-- ===== src/Connection/Receive.antt =====
-- levin/core/connection.py: the futures of a connection: each event keeps them distinct, and data that a
-- parser accepts adds one for each request.
use levin.Prelude.{
  ℕ, suc, ◌+◌, ◌<◌, ◌≡◌, ◌≢◌, refl, sym, ap, ap₂, ◌∙◌, Bool, false, Option, none, some, List, [],
  ◌∷◌, ◌++◌, append_assoc, append-nil, arith, All, All-append, length, is_empty, ◌&&◌, Bool-cases,
  inl, inr,
}
use levin.Bytes.{Bytes}
use levin.Result.{Error, Result, ok, err}
use levin.Common.{Request}
use levin.Http.{Parsed}
use levin.Connection.{
  ParserOps, Future, Transport, Connection, cancelled, connection_lost, close, try_parsers,
  outcome_of, ◌and_then◌, add_futures, parse, parse_with, parser_of, choose, send, write,
  put_written, accept_parsed, take_parsed, data_received, Handler, handle_request, run_future,
}
use levin.Connection.Futures.{AreDistinct, SameFutures, write-SameFutures}
use levin.Connection.Respond.{handle_request-SameFutures}
use levin.Connection.Invariant.{
  IsWellFormed, IsWellFormed-of, sweep-IsWellFormed, close-IsWellFormed, settle-IsWellFormed,
}

-- The bytes that `data_received` writes: none for None and for an empty answer.
abbrev pub sent : Option Bytes → List Bytes
sent none = []
sent (some []) = []
sent (some (b ∷ bytes)) = (b ∷ bytes) ∷ []

-- The futures that data with these requests adds: numbered on from `n`, in the order of the requests; if
-- the parser asks to close, the last one is to close the connection.
abbrev pub numbered : Bool → ℕ → List Request → List Future
numbered closing n [] = []
numbered closing n (request ∷ requests) =
    record { ident = n; request = request; closes = closing && is_empty requests }
    ∷ numbered closing (n + 1) requests

append-AreDistinct :
    (fs : List Future) (f : Future)
    → AreDistinct fs
    → All (λ g. g.ident < f.ident) fs
    → AreDistinct (fs ++ f ∷ [])
append-AreDistinct [] f d b = (tt, tt)
append-AreDistinct (g ∷ fs) f (d, ds) (b, bs) = (
  All-append (λ x. x.ident ≢ g.ident) fs (f ∷ []) d (omega arith, tt),
  append-AreDistinct fs f ds bs,
)

below-suc : (n : ℕ) (fs : List Future) → All (λ f. f.ident < n) fs → All (λ f. f.ident < n + 1) fs
below-suc n [] h = tt
below-suc n (f ∷ fs) (h, hs) = (omega arith, below-suc n fs hs)

module _ {P : Type 0} where
  add_futures_lem :
      (closing : Bool) (requests : List Request) (c : Connection P)
      → (add_futures closing requests c ≡ record c {
        futures = c.futures ++ numbered closing c.next_future requests;
        next_future = c.next_future + length requests;
      })
  unfolding add_futures
  add_futures_lem closing [] c =
      λ i. record c { futures = sym (append-nil c.futures) i; next_future = at i }
    where
      at : c.next_future ≡ c.next_future + 0
      at = omega arith
  add_futures_lem closing (request ∷ requests) c =
      let future : Future = record {
        ident = c.next_future;
        request = request;
        closes = closing && is_empty requests;
      } in
      add_futures_lem closing requests
        (record c { futures = c.futures ++ future ∷ []; next_future = c.next_future + 1 })
      ∙ (λ i. record c {
        futures =
            append_assoc c.futures (future ∷ []) (numbered closing (c.next_future + 1) requests) i;
        next_future = at i;
      })
    where
      at : c.next_future + 1 + length requests ≡ c.next_future + suc (length requests)
      at = omega arith

  add_futures-IsWellFormed :
      (closing : Bool) (requests : List Request) (c : Connection P)
      → IsWellFormed c
      → IsWellFormed (add_futures closing requests c)
  unfolding add_futures
  add_futures-IsWellFormed closing [] c w = w
  add_futures-IsWellFormed closing (request ∷ requests) c w =
      let future : Future = record {
        ident = c.next_future;
        request = request;
        closes = closing && is_empty requests;
      } in
      add_futures-IsWellFormed closing requests
        (record c { futures = c.futures ++ future ∷ []; next_future = c.next_future + 1 })
        (record {
          distinct = append-AreDistinct c.futures future w.distinct w.below;
          below =
              All-append _ c.futures (future ∷ []) (below-suc c.next_future c.futures w.below)
                (omega arith, tt);
        })

  send-SameFutures : (bytes : Option Bytes) (c : Connection P) → SameFutures c (send bytes c).1
  unfolding send
  send-SameFutures none c = (refl, refl, refl)
  send-SameFutures (some []) c = (refl, refl, refl)
  send-SameFutures (some (b ∷ bytes)) c = write-SameFutures (b ∷ bytes) c

module _ {P : Type 0} (ops : ParserOps P) where
  choose-futures :
      (c : Connection P) (t : List P × Option (ℕ × Result Parsed))
      → ((choose ops c t).1.futures ≡ c.futures)
        × ((choose ops c t).1.next_future ≡ c.next_future)
        × ((choose ops c t).1.transport ≡ c.transport)
  unfolding choose
  choose-futures c (ps, none) = (refl, refl, refl)
  choose-futures c (ps, some (i, ok parsed)) = (refl, refl, refl)
  choose-futures c (ps, some (i, err e)) = (refl, refl, refl)

  parse-futures :
      (input : Bytes) (c : Connection P)
      → ((parse ops input c).1.futures ≡ c.futures)
        × ((parse ops input c).1.next_future ≡ c.next_future)
        × ((parse ops input c).1.transport ≡ c.transport)
  unfolding parse
  parse-futures input c = by_parser (parser_of c)
    where
      by_parser :
          (o : Option (ℕ × P))
          → ((parse_with ops input c o).1.futures ≡ c.futures)
            × ((parse_with ops input c o).1.next_future ≡ c.next_future)
            × ((parse_with ops input c o).1.transport ≡ c.transport)
      by_parser none = unfold parse_with in choose-futures c (try_parsers ops 0 c.parsers input)
      by_parser (some (i, p)) = unfold parse_with in (refl, refl, refl)

  accept_parsed-IsWellFormed :
      (parsed : Parsed) (c : Connection P)
      → IsWellFormed c
      → IsWellFormed (accept_parsed ops parsed c).1
  unfolding accept_parsed
  accept_parsed-IsWellFormed parsed c w =
      elim (Bool-cases (parsed.close && is_empty parsed.requests)) [
        | inl e ↦ rw e (close-IsWellFormed ops c w)
        | inr e ↦ rw e (add_futures-IsWellFormed parsed.close parsed.requests c w)
      ]

  take_parsed-IsWellFormed :
      (t : Option (Result Parsed) × Connection P)
      → IsWellFormed t.1
      → IsWellFormed (take_parsed ops t).1
  unfolding take_parsed
  take_parsed-IsWellFormed (none, c) w = w
  take_parsed-IsWellFormed (some (err e), c) w = w
  take_parsed-IsWellFormed (some (ok parsed), c) w =
      let (e, n, _) = send-SameFutures parsed.to_send c in
      after (send parsed.to_send c) (IsWellFormed-of c (send parsed.to_send c).1 e n w)
    where
      after :
          (s : Option Error × Connection P)
          → IsWellFormed s.1
          → IsWellFormed (s and_then accept_parsed ops parsed).1
      after (none, d) v = accept_parsed-IsWellFormed parsed d v
      after (some e, d) v = v

  data_received-IsWellFormed :
      (input : Bytes) (c : Connection P)
      → IsWellFormed c
      → IsWellFormed (data_received ops input c).1
  unfolding data_received
  data_received-IsWellFormed input c w =
      let (e, n, _) = parse-futures input c in
      take_parsed-IsWellFormed (parse ops input c) (IsWellFormed-of c (parse ops input c).1 e n w)

  -- Whatever bytes come, however a future ends, and when the connection is lost or closed: no future
  -- stands twice in the list, and the next one will be new.
  pub events-IsWellFormed :
      (c : Connection P) (input : Bytes) (handler : Handler) (f : Future)
      → IsWellFormed c
      → IsWellFormed (data_received ops input c).1
        × IsWellFormed (run_future ops handler f c)
        × IsWellFormed (connection_lost ops c)
        × IsWellFormed (close ops c).1
  unfolding run_future connection_lost
  events-IsWellFormed c input handler f w =
      let ran = handle_request ops handler f.request c in
      let (e, n, _) = handle_request-SameFutures ops handler f.request c in
      (
        data_received-IsWellFormed input c w,
        settle-IsWellFormed ops (outcome_of ops handler ran.0) f ran.1
            (IsWellFormed-of c ran.1 e n w),
        sweep-IsWellFormed ops (suc (length c.futures)) cancelled 0 c w,
        close-IsWellFormed ops c w,
      )

  send_open :
      (bytes : Option Bytes) (d : Connection P) (t : Transport)
      → d.transport ≡ some t
      → ((send bytes d).0 ≡ none)
        × ((send bytes d).1.transport ≡ some (record t { written = t.written ++ sent bytes }))
  unfolding send write put_written
  send_open none d t h =
      (refl, h ∙ ap (λ w. some (record t { written = w })) (sym (append-nil t.written)))
  send_open (some []) d t h =
      (refl, h ∙ ap (λ w. some (record t { written = w })) (sym (append-nil t.written)))
  send_open (some (b ∷ bytes)) d t h = (
    ap (λ o. (put_written (b ∷ bytes) d o).0) h,
    ap (λ o. (put_written (b ∷ bytes) d o).1.transport) h,
  )

  accept_filled :
      (parsed : Parsed) (d : Connection P)
      → is_empty parsed.requests ≡ false
      → ((accept_parsed ops parsed d).0 ≡ none)
        × ((accept_parsed ops parsed d).1.futures
            ≡ d.futures ++ numbered parsed.close d.next_future parsed.requests)
        × ((accept_parsed ops parsed d).1.transport ≡ d.transport)
  unfolding accept_parsed
  accept_filled parsed d filled =
      let open_end : (parsed.close && is_empty parsed.requests) ≡ false = ground arith in
      rw (open_end, add_futures_lem) (refl, refl, refl)

  -- Data that the parser takes, on a connection with a transport: no exception, the bytes that the parser
  -- gives are written first if there are any, and each request gets a future, behind the others and in the
  -- order of the requests; the last of them is to close the connection if the parser says so.
  pub data_received_futures :
      (input : Bytes) (c d : Connection P) (t : Transport) (parsed : Parsed)
      → c.transport ≡ some t
      → parse ops input c ≡ (some (ok parsed), d)
      → is_empty parsed.requests ≡ false
      → ((data_received ops input c).0 ≡ none)
        × ((data_received ops input c).1.futures
            ≡ c.futures ++ numbered parsed.close c.next_future parsed.requests)
        × ((data_received ops input c).1.transport
            ≡ some (record t { written = t.written ++ sent parsed.to_send }))
  unfolding data_received take_parsed
  data_received_futures input c d t parsed open_transport e filled =
      let (same_futures, same_next, same_transport) = parse-futures input c in
      let d_futures : d.futures ≡ c.futures = ap (λ r. r.1.futures) (sym e) ∙ same_futures in
      let d_next : d.next_future ≡ c.next_future = ap (λ r. r.1.next_future) (sym e) ∙ same_next in
      let d_open : d.transport ≡ some t =
        ap (λ r. r.1.transport) (sym e) ∙ same_transport ∙ open_transport in
      let (quiet, wrote) = send_open parsed.to_send d t d_open in
      let (e_futures, e_next, _) = send-SameFutures parsed.to_send d in
      let (ok_after, fs_after, t_after) = accept_after (send parsed.to_send d) quiet in
      (
        ap (λ r. (take_parsed ops r).0) e ∙ ok_after,
        ap (λ r. (take_parsed ops r).1.futures) e
            ∙ fs_after
            ∙ ap₂ (λ fs n. fs ++ numbered parsed.close n parsed.requests) (e_futures ∙ d_futures)
                (e_next ∙ d_next),
        ap (λ r. (take_parsed ops r).1.transport) e ∙ t_after ∙ wrote,
      )
    where
      accept_after :
          (w : Option Error × Connection P)
          → w.0 ≡ none
          → ((w and_then accept_parsed ops parsed).0 ≡ none)
            × ((w and_then accept_parsed ops parsed).1.futures
                ≡ w.1.futures ++ numbered parsed.close w.1.next_future parsed.requests)
            × ((w and_then accept_parsed ops parsed).1.transport ≡ w.1.transport)
      accept_after (none, x) h = accept_filled parsed x filled
      accept_after (some y, x) h = cc
