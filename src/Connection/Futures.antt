-- ===== src/Connection/Futures.antt =====
-- levin/core/connection.py: writing leaves the futures alone, and what a removal takes away.
use levin.Prelude.{
  ℕ, zero, suc, ◌+◌, ◌<◌, ◌≤◌, ◌≡◌, ◌≢◌, refl, sym, ap, ◌∙◌, Bool, true, false, Option, none, some,
  List, [], ◌∷◌, ◌++◌, arith, All, length, get_elem?, ==_iff, ==_refl, ◌==◌, if◌then◌else◌,
  Bool-cases, Option-cases, inl, inr,
}
use levin.Prelude
use levin.Bytes.{Bytes}
use levin.Result.{Error}
use levin.Common.{Request, Response}
use levin.Connection.{
  ParserOps, ◌and_then◌, Future, Connection, Outcome, returned, cancelled, failed, remove_future,
  put_written, write, write_all, raise_after, parser_of, write_parsed, write_response, write_sorry,
  write_500, report, done_callback, is_open,
}

-- No two futures are one.
abbrev pub AreDistinct : List Future → Type 0
AreDistinct [] = Unit
AreDistinct (f ∷ fs) = All (λ g. g.ident ≢ f.ident) fs × AreDistinct fs

pub length-remove_future :
    (fs : List Future) (i : ℕ) (f : Future)
    → get_elem? fs i ≡ some f
    → suc (length (remove_future f.ident fs)) ≡ length fs
unfolding remove_future
length-remove_future [] i f e = cc
length-remove_future (g ∷ fs) zero f e = ground (arith, ==_refl g.ident)
length-remove_future (g ∷ fs) (suc i) f e = ground (arith, length-remove_future fs i f e)

-- A future is removed from behind the others.
pub remove_future-append :
    (before after : List Future) (f : Future)
    → All (λ g. g.ident ≢ f.ident) before
    → remove_future f.ident (before ++ f ∷ after) ≡ before ++ after
unfolding remove_future
remove_future-append [] after f h = ground (arith, ==_refl f.ident)
remove_future-append (g ∷ before) after f (h, hs) =
    ground (arith, remove_future-append before after f hs, ==_iff g.ident f.ident)

-- What writing may change: the parsers, the transport and the shared response.
abbrev pub SameFutures : {P : Type 0} → Connection P → Connection P → Type 0
SameFutures c d = (d.futures ≡ c.futures) × (d.next_future ≡ c.next_future) × (d.chosen ≡ c.chosen)

module _ {P : Type 0} where
  pub write-SameFutures : (bytes : Bytes) (c : Connection P) → SameFutures c (write bytes c).1
  unfolding write put_written
  write-SameFutures bytes c = ground arith

  pub SameFutures-trans :
      (c d e : Connection P) → SameFutures c d → SameFutures d e → SameFutures c e
  SameFutures-trans c d e (a, b, x) (a', b', x') = (a' ∙ a, b' ∙ b, x' ∙ x)

  write_all-SameFutures :
      (chunks : List Bytes) (c : Connection P) → SameFutures c (write_all chunks c).1
  unfolding write_all
  write_all-SameFutures [] c = (refl, refl, refl)
  write_all-SameFutures (chunk ∷ chunks) c =
      after (write_all-SameFutures chunks) (write chunk c) (write-SameFutures chunk c)
    where
      after :
          ((d : Connection P) → SameFutures d (write_all chunks d).1)
          → (w : Option Error × Connection P) → SameFutures c w.1
          → SameFutures c (w and_then write_all chunks).1
      after rest (none, d) h = SameFutures-trans c d (write_all chunks d).1 h (rest d)
      after rest (some e, d) h = h

  and_raise-SameFutures :
      (c : Connection P) (w : Option Error × Connection P) (e : Option Error)
      → SameFutures c w.1
      → SameFutures c (w and_then raise_after e).1
  unfolding raise_after
  and_raise-SameFutures c (none, d) e h = h
  and_raise-SameFutures c (some x, d) e h = h

module _ {P : Type 0} (ops : ParserOps P) where
  pub write_response-SameFutures :
      (response : Response) (request : Request) (c : Connection P)
      → SameFutures c ((write_response ops response request c).0).1
  unfolding write_response
  write_response-SameFutures response request c = by_parser (parser_of c)
    where
      by_parser : (o : Option (ℕ × P)) → SameFutures c ((write_parsed ops response request c o).0).1
      by_parser none = unfold write_parsed in (refl, refl, refl)
      by_parser (some (i, p)) =
          unfold write_parsed in
          let (chunks, e, response', p') = ops.handle_response p response request in
          let d = record c { parsers = Prelude.set c.parsers i p' } in
          and_raise-SameFutures c (write_all chunks d) e (write_all-SameFutures chunks d)

  write_500-SameFutures :
      (request : Request) (c : Connection P) → SameFutures c (write_500 ops request c)
  unfolding write_500 write_sorry
  write_500-SameFutures request c = elim (Bool-cases (is_open c.transport)) [
    | inl e ↦ rw e (write_response-SameFutures c.response_500 request c)
    | inr e ↦ rw e (refl, refl, refl)
  ]

  report-SameFutures :
      (outcome : Outcome) (request : Request) (c : Connection P)
      → SameFutures c (report ops outcome request c)
  unfolding report
  report-SameFutures returned request c = (refl, refl, refl)
  report-SameFutures cancelled request c = write_500-SameFutures request c
  report-SameFutures (failed e) request c = write_500-SameFutures request c

  pub done_callback-futures :
      (outcome : Outcome) (f : Future) (c : Connection P)
      → ((done_callback ops outcome f c).futures ≡ remove_future f.ident c.futures)
        × ((done_callback ops outcome f c).next_future ≡ c.next_future)
  unfolding done_callback
  done_callback-futures outcome f c =
      let (a, b, x) = report-SameFutures outcome f.request c in (ap (remove_future f.ident) a, b)
