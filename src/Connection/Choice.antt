-- ===== src/Connection/Choice.antt =====
-- levin/core/connection.py: which parser a connection uses.
use levin.Prelude.{
  ℕ, zero, suc, ◌+◌, ◌≡◌, ◌≢◌, ◌⊎◌, refl, sym, ap, ◌∙◌, Bool, true, false, Option, none, some, List,
  [], ◌∷◌, ◌++◌, append-nil, arith, All, length, get_elem?, inl, inr,
}
use levin.Prelude
use levin.Bytes.{Bytes}
use levin.Result.{Result, ok, err, parse_error, type_error}
use levin.Http.{Parsed}
use levin.Connection.{
  ParserOps, Connection, after_try, chosen_parser, try_parsers, choose, parse, parse_with,
  parser_of, data_received, take_parsed,
}

module _ {P : Type 0} (ops : ParserOps P) (input : Bytes) where
  -- The parser does not know the data: it raises ParseError.
  abbrev pub Refuses : P → Type 0
  Refuses p = (ops.handle_request p input).0 ≡ err parse_error

  -- The parsers after each has seen the data.
  abbrev pub seen : List P → List P
  seen [] = []
  seen (p ∷ ps) = (ops.handle_request p input).1 ∷ seen ps

  try_parsers-refused :
      (i : ℕ) (before : List P) (rest : List P)
      → All Refuses before
      → try_parsers ops i (before ++ rest) input ≡ (
          let tried = try_parsers ops (i + length before) rest input in
          (seen before ++ tried.0, tried.1))
  unfolding try_parsers
  try_parsers-refused i [] rest h = ap (λ n. try_parsers ops n rest input) (omega arith)
  try_parsers-refused i (p ∷ before) rest (h, hs) =
      ap
        (λ r.
          after_try ops i (before ++ rest) (try_parsers ops (suc i) (before ++ rest) input)
            (r, (ops.handle_request p input).1))
        h
      ∙ ap (λ t. ((ops.handle_request p input).1 ∷ t.0, t.1))
          (try_parsers-refused (suc i) before rest hs
            ∙ ap
                (λ n. let tried = try_parsers ops n rest input in (seen before ++ tried.0, tried.1))
                (omega arith))

set_elem-append :
    {A : Type 0} (xs ys : List A) (x y : A)
    → Prelude.set (xs ++ x ∷ ys) (length xs) y ≡ xs ++ y ∷ ys
set_elem-append [] ys x y = refl
set_elem-append (z ∷ xs) ys x y = ap (λ l. z ∷ l) (set_elem-append xs ys x y)

get_elem-append :
    {A : Type 0} (xs ys : List A) (x : A) → get_elem? (xs ++ x ∷ ys) (length xs) ≡ some x
get_elem-append [] ys x = refl
get_elem-append (z ∷ xs) ys x = get_elem-append xs ys x

length-seen :
    {P : Type 0} (ops : ParserOps P) (input : Bytes) (ps : List P)
    → length (seen ops input ps) ≡ length ps
length-seen ops input [] = refl
length-seen ops input (p ∷ ps) = ap suc (length-seen ops input ps)

module _ {P : Type 0} (ops : ParserOps P) where
  parse_chosen :
      (input : Bytes) (c : Connection P) (i : ℕ) (p : P)
      → c.chosen ≡ some i
      → get_elem? c.parsers i ≡ some p
      → parse ops input c ≡ (
        some (ops.handle_request p input).0,
        record c { parsers = Prelude.set c.parsers i (ops.handle_request p input).1 },
      )
  unfolding parse parse_with parser_of chosen_parser
  parse_chosen input c i p e f = ap (λ o. parse_with ops input c (chosen_parser c o)) e ∙ found
    where
      found : parse_with ops input c (chosen_parser c (some i)) ≡ (
        some (ops.handle_request p input).0,
        record c { parsers = Prelude.set c.parsers i (ops.handle_request p input).1 },
      )
      found = rw (f, chosen_parser)

  parse_fresh :
      (input : Bytes) (c : Connection P)
      → c.chosen ≡ none
      → parse ops input c ≡ choose ops c (try_parsers ops 0 c.parsers input)
  unfolding parse parse_with parser_of chosen_parser
  parse_fresh input c e = ap (λ o. parse_with ops input c (chosen_parser c o)) e

  -- The first data of a connection goes to the parsers in order, until one does not raise ParseError; if
  -- that one returns requests, it is the connection's parser from then on: whatever data comes next, that
  -- parser handles it, in the state in which it is, and no other is asked.
  pub parse_sticks :
      (input next : Bytes) (c : Connection P) (before after : List P) (p p' : P) (parsed : Parsed)
      → c.chosen ≡ none
      → c.parsers ≡ before ++ p ∷ after
      → All (Refuses ops input) before
      → ops.handle_request p input ≡ (ok parsed, p')
      → (d : Connection P) × (parse ops input c ≡ (some (ok parsed), d))
        × (d ≡ record c {
          parsers = seen ops input before ++ p' ∷ after;
          chosen = some (length before);
        })
        × (parse ops next d ≡ (
          some (ops.handle_request p' next).0,
          record d { parsers = seen ops input before ++ (ops.handle_request p' next).1 ∷ after },
        ))
  unfolding choose try_parsers
  parse_sticks input next c before after p p' parsed fresh shape refused accepted =
      let d : Connection P = record c {
        parsers = seen ops input before ++ p' ∷ after;
        chosen = some (length before);
      } in
      let size = length-seen ops input before in
      let place : get_elem? d.parsers (length before) ≡ some p' =
        ap (get_elem? d.parsers) (sym size) ∙ get_elem-append (seen ops input before) after p' in
      (
        d,
        parse_fresh input c fresh
            ∙ ap (λ ps. choose ops c (try_parsers ops 0 ps input)) shape
            ∙ ap (choose ops c) (try_parsers-refused ops input 0 before (p ∷ after) refused)
            ∙ ap
                (λ r.
                  let tried =
                    after_try ops (0 + length before) after
                      (try_parsers ops (suc (0 + length before)) after input) r in
                  choose ops c (seen ops input before ++ tried.0, tried.1))
                accepted
            ∙ ap (λ (n : ℕ). the_result n) (omega arith),
        refl,
        parse_chosen next d (length before) p' refl place
            ∙ ap (λ ps. (some (ops.handle_request p' next).0, record d { parsers = ps }))
                (ap (λ n. Prelude.set d.parsers n (ops.handle_request p' next).1) (sym size)
                  ∙ set_elem-append (seen ops input before) after p'
                      (ops.handle_request p' next).1),
      )
    where
      the_result : ℕ → Option (Result Parsed) × Connection P
      the_result n = (
        some (ok parsed),
        record c { parsers = seen ops input before ++ p' ∷ after; chosen = some n },
      )

  -- Where every parser refuses the first data, `data_received` raises TypeError: nothing is written, no
  -- handler runs, the connection stays open, and no parser is chosen.
  pub data_received_refused :
      (input : Bytes) (c : Connection P)
      → c.chosen ≡ none
      → All (Refuses ops input) c.parsers
      → data_received ops input c
        ≡ (some type_error, record c { parsers = seen ops input c.parsers })
  unfolding data_received choose try_parsers
  data_received_refused input c fresh refused =
      ap (take_parsed ops) (
        parse_fresh input c fresh
        ∙ ap (λ ps. choose ops c (try_parsers ops 0 ps input)) (sym (append-nil c.parsers))
        ∙ ap (choose ops c) (try_parsers-refused ops input 0 c.parsers [] refused))
      ∙ unfold take_parsed in
        ap (λ ps. (some type_error, record c { parsers = ps }))
          (append-nil (seen ops input c.parsers))
