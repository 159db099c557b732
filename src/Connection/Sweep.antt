-- ===== src/Connection/Sweep.antt =====
-- levin/core/connection.py: the loops of `connection_lost` and `close` over `self._futures`, from which the
-- callbacks remove.
use levin.Prelude.{
  ℕ, zero, suc, ◌<◌, ◌≤◌, ◌≡◌, ◌≢◌, refl, sym, ap, ◌∙◌, true, false, none, some, List, [], ◌∷◌,
  ◌++◌, append_assoc, append-nil, arith, All, All-append, length, length-append, get_elem?,
  Bool-cases, Option-cases, inl, inr,
}
use levin.Result.{close_exception}
use levin.Connection.{
  ParserOps, Future, Transport, Connection, Outcome, cancelled, failed, remove_future,
  close_transport, done_callback, sweep, connection_lost, close_with, close,
}
use levin.Connection.Futures.{
  AreDistinct, length-remove_future, remove_future-append, done_callback-futures,
}

module _ {P : Type 0} (ops : ParserOps P) where
  -- What the callbacks behind `_done_callback` leave, in a loop with `f` rounds left.
  abbrev after : ℕ → Future → Connection P → Connection P
  after f future done = elim future.closes [
    | true ↦ sweep ops f (failed close_exception) 0 (close_transport done)
    | false ↦ done
  ]

  sweep-none :
      (f : ℕ) (o : Outcome) (i : ℕ) (c : Connection P)
      → get_elem? c.futures i ≡ none
      → sweep ops (suc f) o i c ≡ c
  unfolding sweep
  sweep-none f o i c e = rw (e, sweep)

  sweep-some :
      (f : ℕ) (o : Outcome) (i : ℕ) (c : Connection P) (future : Future)
      → get_elem? c.futures i ≡ some future
      → sweep ops (suc f) o i c
        ≡ sweep ops f o (suc i) (after f future (done_callback ops o future c))
  unfolding sweep
  sweep-some f o i c future e = rw (e, sweep)

  close_transport-futures : (c : Connection P) → (close_transport c).futures ≡ c.futures
  unfolding close_transport
  close_transport-futures c = ground arith

  done-length :
      (o : Outcome) (i : ℕ) (c : Connection P) (future : Future)
      → get_elem? c.futures i ≡ some future
      → suc (length (done_callback ops o future c).futures) ≡ length c.futures
  done-length o i c future e =
      ap (λ fs. suc (length fs)) (done_callback-futures ops o future c).0
      ∙ length-remove_future c.futures i future e

  after-length :
      (f : ℕ) (future : Future) (d : Connection P)
      → ((o : Outcome) (i : ℕ) (c : Connection P)
          → length (sweep ops f o i c).futures ≤ length c.futures)
      → length (after f future d).futures ≤ length d.futures
  after-length f future d shorter = elim (Bool-cases future.closes) [
    | inl e ↦ rw e (
        omega (
          arith,
          shorter (failed close_exception) 0 (close_transport d),
          ap length (close_transport-futures d),
        ))
    | inr e ↦ rw e (omega arith)
  ]

  length-sweep :
      (f : ℕ) (o : Outcome) (i : ℕ) (c : Connection P)
      → length (sweep ops f o i c).futures ≤ length c.futures
  length-sweep zero o i c = unfold sweep in omega arith
  length-sweep (suc f) o i c = elim (Option-cases (get_elem? c.futures i)) [
    | inl e ↦ rw (sweep-none f o i c e) (omega arith)
    | inr (future, e) ↦ rw (sweep-some f o i c future e) (
        omega (
          arith,
          length-sweep f o (suc i) (after f future (done_callback ops o future c)),
          after-length f future (done_callback ops o future c) (length-sweep f),
          done-length o i c future e,
        ))
  ]

  after_enough :
      (f : ℕ) (future : Future) (d : Connection P)
      → ((o : Outcome) (i : ℕ) (c : Connection P)
          → length c.futures < f
          → sweep ops (suc f) o i c ≡ sweep ops f o i c)
      → length d.futures < f
      → after (suc f) future d ≡ after f future d
  after_enough f future d same h = elim (Bool-cases future.closes) [
    | inl e ↦
        rw e
          (same (failed close_exception) 0 (close_transport d) (rw (close_transport-futures d) h))
    | inr e ↦ rw e
  ]

  -- One round more than there are futures is enough: a loop with more rounds does the same.
  pub sweep_enough :
      (f : ℕ) (o : Outcome) (i : ℕ) (c : Connection P)
      → length c.futures < f
      → sweep ops (suc f) o i c ≡ sweep ops f o i c
  sweep_enough zero o i c h = elim h [ ]
  sweep_enough (suc f) o i c h = elim (Option-cases (get_elem? c.futures i)) [
    | inl e ↦ sweep-none (suc f) o i c e ∙ sym (sweep-none f o i c e)
    | inr (future, e) ↦
        let done = done_callback ops o future c in
        let shorter = done-length o i c future e in
        let fits : length done.futures < f = omega arith in
        sweep-some (suc f) o i c future e
        ∙ ap (λ d. sweep ops (suc f) o (suc i) d) (after_enough f future done (sweep_enough f) fits)
        ∙ sweep_enough f o (suc i) (after f future done)
            (omega (arith, after-length f future done (length-sweep f)))
        ∙ sym (sweep-some f o i c future e)
  ]

-- Every other element, the first one left out.
abbrev pub every_other {ℓ} : {A : Type ℓ} → List A → List A
every_other [] = []
every_other (x ∷ []) = []
every_other (x ∷ y ∷ xs) = y ∷ every_other xs

-- No callback of these futures closes the connection.
abbrev pub NoneCloses : List Future → Type 0
NoneCloses fs = All (λ f. f.closes ≡ false) fs

get_elem?-append {ℓ} :
    {A : Type ℓ} (xs ys : List A) → get_elem? (xs ++ ys) (length xs) ≡ get_elem? ys 0
get_elem?-append [] ys = refl
get_elem?-append (x ∷ xs) ys = get_elem?-append xs ys

split-AreDistinct :
    (before rest : List Future) (f : Future)
    → AreDistinct (before ++ f ∷ rest)
    → All (λ g. g.ident ≢ f.ident) before × AreDistinct (before ++ rest)
split-AreDistinct [] rest f (h, hs) = (tt, hs)
split-AreDistinct (g ∷ before) rest f (h, hs) =
    let (apart, distinct) = split-AreDistinct before rest f hs in
    let (near, far) = All-split before (f ∷ rest) h in
    ((λ e. far.0 (sym e), apart), (All-append _ before rest near far.1, distinct))
  where
    All-split :
        (xs ys : List Future)
        → All (λ x. x.ident ≢ g.ident) (xs ++ ys)
        → All (λ x. x.ident ≢ g.ident) xs × All (λ x. x.ident ≢ g.ident) ys
    All-split [] ys h = (tt, h)
    All-split (x ∷ xs) ys (h, hs) = let (a, b) = All-split xs ys hs in ((h, a), b)

get_elem?-past {ℓ} : {A : Type ℓ} (xs : List A) (i : ℕ) → length xs ≤ i → get_elem? xs i ≡ none
get_elem?-past [] i h = refl
get_elem?-past (x ∷ xs) zero h = absurd (omega arith)
get_elem?-past (x ∷ xs) (suc i) h = get_elem?-past xs i (omega arith)

module _ {P : Type 0} (ops : ParserOps P) where
  -- One round at the future that stands behind `before`: it is gone, and the loop goes on one place further.
  sweep_round :
      (f : ℕ) (o : Outcome) (before rest : List Future) (x : Future) (c : Connection P)
      → c.futures ≡ before ++ x ∷ rest
      → AreDistinct (before ++ x ∷ rest)
      → x.closes ≡ false
      → (d : Connection P) × (d.futures ≡ before ++ rest)
        × (sweep ops (suc f) o (length before) c ≡ sweep ops f o (suc (length before)) d)
  sweep_round f o before rest x c e distinct open_future =
      let found : get_elem? c.futures (length before) ≡ some x =
        ap (λ fs. get_elem? fs (length before)) e ∙ get_elem?-append before (x ∷ rest) in
      (
        done_callback ops o x c,
        (done_callback-futures ops o x c).0
            ∙ ap (remove_future x.ident) e
            ∙ remove_future-append before rest x (split-AreDistinct before rest x distinct).0,
        sweep-some ops f o (length before) c x found
            ∙ ap (sweep ops f o (suc (length before)))
                (kept x (done_callback ops o x c) open_future),
      )
    where
      kept : (y : Future) (d : Connection P) → y.closes ≡ false → after ops f y d ≡ d
      kept y d h = rw h

  sweep_skips :
      (f : ℕ) (o : Outcome) (rest before : List Future) (c : Connection P)
      → c.futures ≡ before ++ rest
      → AreDistinct (before ++ rest)
      → NoneCloses rest
      → length rest < f
      → (sweep ops f o (length before) c).futures ≡ before ++ every_other rest
  sweep_skips zero o rest before c e distinct keep h = elim h [ ]
  sweep_skips (suc f) o [] before c e distinct keep h =
      let past : get_elem? c.futures (length before) ≡ none =
        ap (λ fs. get_elem? fs (length before)) (e ∙ append-nil before)
        ∙ get_elem?-past before (length before) (omega arith) in
      ap (λ d. d.futures) (sweep-none ops f o (length before) c past) ∙ e
  sweep_skips (suc zero) o (x ∷ rest) before c e distinct keep h = absurd (omega arith)
  sweep_skips (suc (suc f)) o (x ∷ []) before c e distinct (open_future, _) h =
      let (d, fs, step) = sweep_round (suc f) o before [] x c e distinct open_future in
      let past : get_elem? d.futures (suc (length before)) ≡ none =
        ap (λ l. get_elem? l (suc (length before))) (fs ∙ append-nil before)
        ∙ get_elem?-past before (suc (length before)) (omega arith) in
      ap (λ r. r.futures) (step ∙ sweep-none ops f o (suc (length before)) d past) ∙ fs
  sweep_skips (suc (suc f)) o (x ∷ y ∷ rest) before c e distinct (open_future, (_, keep)) h =
      let (d, fs, step) = sweep_round (suc f) o before (y ∷ rest) x c e distinct open_future in
      let further : length (before ++ y ∷ []) ≡ suc (length before) =
        length-append before (y ∷ []) ∙ omega arith in
      let shape : d.futures ≡ (before ++ y ∷ []) ++ rest =
        fs ∙ sym (append_assoc before (y ∷ []) rest) in
      let apart : AreDistinct ((before ++ y ∷ []) ++ rest) =
        rw (append_assoc before (y ∷ []) rest) (split-AreDistinct before (y ∷ rest) x distinct).1 in
      ap (λ r. r.futures) step
      ∙ ap (λ n. (sweep ops (suc f) o n d).futures) (sym further)
      ∙ sweep_skips (suc f) o rest (before ++ y ∷ []) d shape apart keep (omega arith)
      ∙ append_assoc before (y ∷ []) (every_other rest)

  -- When the connection is lost, only every second future is cancelled, from the first one on: each
  -- cancellation removes its future from the list that the loop goes over, and the next one is skipped.
  -- (The futures are distinct, and none of them is to close the connection.) The skipped ones stay in
  -- the list, and `close` skips the same ones.
  pub connection_lost_skips :
      (c : Connection P) (t : Transport)
      → c.transport ≡ some t
      → AreDistinct c.futures
      → NoneCloses c.futures
      → ((connection_lost ops c).futures ≡ every_other c.futures)
        × ((close ops c).1.futures ≡ every_other c.futures)
  unfolding connection_lost close
  connection_lost_skips c t there distinct keep = (
    sweep_skips (suc (length c.futures)) cancelled c.futures [] c refl distinct keep (omega arith),
    ap (λ o. (close_with ops c o).1.futures) there ∙ swept,
  )
    where
      swept :
          (sweep ops
            (suc (length c.futures))
            (failed close_exception)
            0
            (close_transport c)).futures
          ≡ every_other c.futures
      swept =
          sweep_skips (suc (length c.futures)) (failed close_exception) c.futures []
            (close_transport c) (close_transport-futures ops c) distinct keep (omega arith)
