-- ===== src/Connection/Invariant.antt =====
-- levin/core/connection.py: the futures of a connection stay distinct when they are done, one by one or all
-- together.
use levin.Prelude.{
  ℕ, zero, suc, ◌<◌, ◌≡◌, ◌≢◌, Option, none, some, List, [], ◌∷◌, arith, All, length, get_elem?,
  ◌==◌, Bool-cases, Option-cases, inl, inr,
}
use levin.Result.{close_exception}
use levin.Connection.{
  ParserOps, Future, Transport, Connection, Outcome, failed, remove_future, close_transport,
  done_callback, sweep, close, close_with, settle,
}
use levin.Connection.Futures.{AreDistinct, done_callback-futures}

-- No future stands twice in the list, and the next one will be new.
pub record IsWellFormed {P : Type 0} (c : Connection P) : Type 0 where
  pub distinct : AreDistinct c.futures
  pub below : All (λ f. f.ident < c.next_future) c.futures

remove_future-All :
    (Q : Future → Type 0) (i : ℕ) (fs : List Future) → All Q fs → All Q (remove_future i fs)
unfolding remove_future
remove_future-All Q i [] h = tt
remove_future-All Q i (f ∷ fs) (h, hs) = elim (Bool-cases (f.ident == i)) [
  | inl e ↦ rw e hs
  | inr e ↦ rw e (h, remove_future-All Q i fs hs)
]

pub remove_future-AreDistinct :
    (i : ℕ) (fs : List Future) → AreDistinct fs → AreDistinct (remove_future i fs)
unfolding remove_future
remove_future-AreDistinct i [] h = tt
remove_future-AreDistinct i (f ∷ fs) (h, hs) = elim (Bool-cases (f.ident == i)) [
  | inl e ↦ rw e hs
  | inr e ↦
      rw e (remove_future-All (λ g. g.ident ≢ f.ident) i fs h, remove_future-AreDistinct i fs hs)
]

module _ {P : Type 0} where
  -- The invariant reads only the futures and the next number.
  pub IsWellFormed-of :
      (c d : Connection P)
      → d.futures ≡ c.futures
      → d.next_future ≡ c.next_future
      → IsWellFormed c
      → IsWellFormed d
  IsWellFormed-of c d e n w = record { distinct = rw e w.distinct; below = rw (e, n) w.below }

module _ {P : Type 0} (ops : ParserOps P) where
  done_callback-IsWellFormed :
      (o : Outcome) (f : Future) (c : Connection P)
      → IsWellFormed c
      → IsWellFormed (done_callback ops o f c)
  done_callback-IsWellFormed o f c w =
      let (e, n) = done_callback-futures ops o f c in
      record {
        distinct = rw e (remove_future-AreDistinct f.ident c.futures w.distinct);
        below =
            rw (e, n) (remove_future-All (λ g. g.ident < c.next_future) f.ident c.futures w.below);
      }

  close_transport-IsWellFormed :
      (c : Connection P) → IsWellFormed c → IsWellFormed (close_transport c)
  unfolding close_transport
  close_transport-IsWellFormed c w =
      IsWellFormed-of c (close_transport c) (ground arith) (ground arith) w

  pub sweep-IsWellFormed :
      (f : ℕ) (o : Outcome) (i : ℕ) (c : Connection P)
      → IsWellFormed c
      → IsWellFormed (sweep ops f o i c)
  unfolding sweep
  sweep-IsWellFormed zero o i c w = w
  sweep-IsWellFormed (suc f) o i c w = elim (Option-cases (get_elem? c.futures i)) [
    | inl e ↦ rw (e, sweep) w
    | inr (future, e) ↦
        let done = done_callback ops o future c in
        let kept = done_callback-IsWellFormed o future c w in
        rw (e, sweep)
          (elim (Bool-cases future.closes) [
            | inl b ↦ rw b (
                sweep-IsWellFormed f o (suc i) _ (
                  sweep-IsWellFormed f (failed close_exception) 0 (close_transport done)
                    (close_transport-IsWellFormed done kept)))
            | inr b ↦ rw b (sweep-IsWellFormed f o (suc i) done kept)
          ])
  ]

  pub close-IsWellFormed : (c : Connection P) → IsWellFormed c → IsWellFormed (close ops c).1
  unfolding close
  close-IsWellFormed c w = with_transport c.transport
    where
      with_transport : (o : Option Transport) → IsWellFormed (close_with ops c o).1
      with_transport none = unfold close_with in w
      with_transport (some t) =
          unfold close_with in
          sweep-IsWellFormed (suc (length c.futures)) (failed close_exception) 0 (close_transport c)
            (close_transport-IsWellFormed c w)

  pub settle-IsWellFormed :
      (o : Outcome) (f : Future) (c : Connection P)
      → IsWellFormed c
      → IsWellFormed (settle ops o f c)
  unfolding settle
  settle-IsWellFormed o f c w =
      let kept = done_callback-IsWellFormed o f c w in
      elim (Bool-cases f.closes) [
        | inl e ↦ rw e (close-IsWellFormed (done_callback ops o f c) kept)
        | inr e ↦ rw e kept
      ]
