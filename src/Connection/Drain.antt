-- ===== src/Connection/Drain.antt =====
-- levin/core/connection.py: the coroutines of a connection's requests, done in any order.
use levin.Prelude.{
  ℕ, ◌≡◌, ◌≢◌, refl, ap, ◌∙◌, Bool, true, false, ◌||◌, List, [], ◌∷◌, ◌==◌, ==_iff, arith, All,
  Bool-cases, inl, inr,
}
use levin.Connection.{
  ParserOps, Future, Connection, Handler, remove_future, handle_request, outcome_of, settle,
  run_future,
}
use levin.Connection.Futures.{AreDistinct, done_callback-futures}
use levin.Connection.Invariant.{IsWellFormed, remove_future-AreDistinct}
use levin.Connection.Respond.{handle_request-SameFutures}

abbrev pub has_ident : ℕ → List Future → Bool
has_ident i [] = false
has_ident i (f ∷ fs) = (f.ident == i) || has_ident i fs

remove_all : List Future → List Future → List Future
remove_all [] fs = fs
remove_all (g ∷ order) fs = remove_all order (remove_future g.ident fs)

has_ident-others :
    (g : Future) (order fs : List Future)
    → All (λ f. f.ident ≢ g.ident) fs
    → All (λ f. has_ident f.ident (g ∷ order) ≡ true) fs
    → All (λ f. has_ident f.ident order ≡ true) fs
has_ident-others g order [] apart h = tt
has_ident-others g order (f ∷ fs) apart h =
    (ground (arith, apart.0, h.0), has_ident-others g order fs apart.1 h.1)

has_ident-remove_future :
    (g : Future) (order fs : List Future)
    → AreDistinct fs
    → All (λ f. has_ident f.ident (g ∷ order) ≡ true) fs
    → All (λ f. has_ident f.ident order ≡ true) (remove_future g.ident fs)
unfolding remove_future
has_ident-remove_future g order [] d h = tt
has_ident-remove_future g order (f ∷ fs) d h = elim (Bool-cases (f.ident == g.ident)) [
  | inl e ↦
      let same : f.ident ≡ g.ident = (==_iff f.ident g.ident).0 e in
      rw e (has_ident-others g order fs (rw same at d.0) h.1)
  | inr e ↦ rw e (ground (arith, e, h.0), has_ident-remove_future g order fs d.1 h.1)
]

remove_all_empty :
    (order fs : List Future)
    → AreDistinct fs
    → All (λ f. has_ident f.ident order ≡ true) fs
    → remove_all order fs ≡ []
unfolding remove_all
remove_all_empty [] [] d h = refl
remove_all_empty [] (f ∷ fs) d h = cc (h.0)
remove_all_empty (g ∷ order) fs d h =
    remove_all_empty order (remove_future g.ident fs) (remove_future-AreDistinct g.ident fs d)
      (has_ident-remove_future g order fs d h)

module _ {P : Type 0} (ops : ParserOps P) (handler : Handler) where
  -- The coroutines of these futures run, one after the other.
  abbrev pub run_each : List Future → Connection P → Connection P
  run_each [] c = c
  run_each (f ∷ order) c = run_each order (run_future ops handler f c)

  run_future-futures :
      (f : Future) (c : Connection P)
      → f.closes ≡ false
      → (run_future ops handler f c).futures ≡ remove_future f.ident c.futures
  unfolding run_future settle
  run_future-futures f c stays =
      let ran = handle_request ops handler f.request c in
      rw stays (
        (done_callback-futures ops (outcome_of ops handler ran.0) f ran.1).0
        ∙ ap (remove_future f.ident) (handle_request-SameFutures ops handler f.request c).0)

  run_each-futures :
      (order : List Future) (c : Connection P)
      → All (λ f. f.closes ≡ false) order
      → (run_each order c).futures ≡ remove_all order c.futures
  unfolding remove_all
  run_each-futures [] c stay = refl
  run_each-futures (f ∷ order) c stay =
      run_each-futures order (run_future ops handler f c) stay.1
      ∙ ap (remove_all order) (run_future-futures f c stay.0)

  -- In whatever order the coroutines of a well-formed connection's futures run, and whatever handler and parser
  -- return or raise: when each has run, no future is left, provided that none of them closes the connection.
  pub run_each-drains :
      (order : List Future) (c : Connection P)
      → IsWellFormed c
      → All (λ f. f.closes ≡ false) order
      → All (λ f. has_ident f.ident order ≡ true) c.futures
      → (run_each order c).futures ≡ []
  run_each-drains order c w stay all =
      run_each-futures order c stay ∙ remove_all_empty order c.futures w.distinct all
