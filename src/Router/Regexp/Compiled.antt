-- ===== src/Router/Regexp/Compiled.antt =====
-- levin/components/router.py: what `re.compile` makes of a pattern written piece by piece.
use levin.Prelude.{
  ℕ, ◌≡◌, refl, sym, ap, ◌∙◌, Bool, true, false, ◌||◌, none, some, List, [], ◌∷◌, ◌++◌,
  append_assoc, append-nil, ap₂, All, ==_refl,
}
use levin.Bytes.{Bytes, codes, contains_byte, eqb}
use levin.Router.Regexp.{
  is_word, group_source, sub_from, Item, lit, opt, any, group, plain, naming, closing,
  is_identifier, push_item, next_is_question, compile_from, has_repeated_group, names_group,
  reject_repeated, compile, sub_path_args,
}
use levin.Router.Regexp.Groups.{IsWordText}
use levin.Router.Regexp.Pieces.{
  Piece, byte, hole, print_pieces, items_of, IsPlain, IsPattern, plain-not_special,
}
use levin.Router.Regexp.Substituted.{source_of, sub_from-print_pieces}

next-source_of :
    (pieces : List Piece)
    → IsPattern pieces
    → next_is_question (source_of pieces ++ codes "/?") ≡ false
unfolding source_of group_source
next-source_of [] h = refl
next-source_of (byte c ∷ pieces) h = (plain-not_special c h.0).2
next-source_of (hole name ∷ pieces) h = refl

compile_from-word :
    (taken : Bytes) (c : ℕ) (s : Bytes)
    → is_word c ≡ true
    → compile_from false (naming taken) (c ∷ s) ≡ compile_from false (naming (taken ++ c ∷ [])) s
unfolding compile_from
compile_from-word taken c s h = rw h refl

compile_from-name :
    (taken w s : Bytes)
    → All (λ c. is_word c ≡ true) w
    → compile_from false (naming taken) (w ++ s) ≡ compile_from false (naming (taken ++ w)) s
compile_from-name taken [] s h =
    ap (λ (x : Bytes). compile_from false (naming x) s) (sym (append-nil taken))
compile_from-name taken (c ∷ w) s h =
    compile_from-word taken c (w ++ s) h.0
    ∙ compile_from-name (taken ++ c ∷ []) w s h.1
    ∙ ap (λ (x : Bytes). compile_from false (naming x) s) (append_assoc taken (c ∷ []) w)

compile_from-open :
    (c : ℕ) (s : Bytes)
    → is_word c ≡ true
    → compile_from false plain (codes "(?P<" ++ c ∷ s) ≡ compile_from false (naming (c ∷ [])) s
unfolding compile_from
compile_from-open c s h = rw h refl

compile_from-next :
    (name : Bytes) (x y : ℕ) (xs s : Bytes)
    → compile_from false (closing name (x ∷ y ∷ xs)) (x ∷ s)
      ≡ compile_from false (closing name (y ∷ xs)) s
unfolding compile_from
compile_from-next name x y xs s = rw (==_refl x) refl

compile_from-last :
    (name : Bytes) (x : ℕ) (s : Bytes)
    → next_is_question s ≡ false
    → compile_from false (closing name (x ∷ [])) (x ∷ s)
      ≡ push_item (group name) (compile_from false plain s)
unfolding compile_from
compile_from-last name x s n = rw (==_refl x, n) refl

-- What stands between a group's name and its end
compile_from-closing :
    (name : Bytes) (x : ℕ) (xs s : Bytes)
    → next_is_question s ≡ false
    → compile_from false (closing name (x ∷ xs)) (x ∷ (xs ++ s))
      ≡ push_item (group name) (compile_from false plain s)
compile_from-closing name x [] s n = compile_from-last name x s n
compile_from-closing name x (y ∷ xs) s n =
    compile_from-next name x y xs (y ∷ (xs ++ s)) ∙ compile_from-closing name y xs s n

compile_from-named :
    (name s : Bytes)
    → is_identifier name ≡ true
    → compile_from false (naming name) (b'>' ∷ s)
      ≡ compile_from false (closing name (codes "[-_a-zA-Z0-9]+)")) s
unfolding compile_from
compile_from-named name s h = rw h refl

compile_from-close :
    (name s : Bytes)
    → is_identifier name ≡ true
    → next_is_question s ≡ false
    → compile_from false (naming name) (codes ">[-_a-zA-Z0-9]+)" ++ s)
      ≡ push_item (group name) (compile_from false plain s)
compile_from-close name s h n =
    compile_from-named name (codes "[-_a-zA-Z0-9]+)" ++ s) h
    ∙ compile_from-closing name b'[' (codes "-_a-zA-Z0-9]+)") s n

compile_from-byte :
    (c : ℕ) (s : Bytes)
    → IsPlain c
    → next_is_question s ≡ false
    → compile_from false plain (c ∷ s) ≡ push_item (lit c) (compile_from false plain s)
unfolding compile_from
compile_from-byte c s h n = rw (h.0, h.1, h.2, n) refl

compile_from-group :
    (name s : Bytes)
    → IsWordText name
    → is_identifier name ≡ true
    → next_is_question s ≡ false
    → compile_from false plain (group_source name ++ s)
      ≡ push_item (group name) (compile_from false plain s)
unfolding group_source
compile_from-group [] s w h n = cc (w.0)
compile_from-group (c ∷ name) s w h n =
    ap (λ (x : Bytes). compile_from false plain (codes "(?P<" ++ c ∷ x))
      (append_assoc name (codes ">[-_a-zA-Z0-9]+)") s)
    ∙ compile_from-open c (name ++ (codes ">[-_a-zA-Z0-9]+)" ++ s)) w.1.0
    ∙ compile_from-name (c ∷ []) name (codes ">[-_a-zA-Z0-9]+)" ++ s) w.1.1
    ∙ compile_from-close (c ∷ name) s h n

compile_from-source_of :
    (pieces : List Piece)
    → IsPattern pieces
    → compile_from false plain (source_of pieces ++ codes "/?")
      ≡ some (items_of pieces ++ opt b'/' ∷ [])
unfolding source_of push_item
compile_from-source_of [] h = last
  where
    last : compile_from false plain (codes "/?") ≡ some (opt b'/' ∷ [])
    last = unfold compile_from contains_byte in refl
compile_from-source_of (byte c ∷ pieces) h =
    compile_from-byte c (source_of pieces ++ codes "/?") h.0 (next-source_of pieces h.1)
    ∙ ap (push_item (lit c)) (compile_from-source_of pieces h.1)
compile_from-source_of (hole name ∷ pieces) h =
    ap (compile_from false plain) (append_assoc (group_source name) (source_of pieces) (codes "/?"))
    ∙ compile_from-group name (source_of pieces ++ codes "/?") h.0.0 h.0.1
        (next-source_of pieces h.1)
    ∙ ap (push_item (group name)) (compile_from-source_of pieces h.1)

names_group-append :
    (name : Bytes) (items : List Item)
    → names_group name (items ++ opt b'/' ∷ []) ≡ names_group name items
names_group-append name [] = refl
names_group-append name (lit c ∷ items) = names_group-append name items
names_group-append name (opt c ∷ items) = names_group-append name items
names_group-append name (any ∷ items) = names_group-append name items
names_group-append name (group other ∷ items) =
    ap (λ (b : Bool). eqb other name || b) (names_group-append name items)

has_repeated_group-append :
    (items : List Item) → has_repeated_group (items ++ opt b'/' ∷ []) ≡ has_repeated_group items
has_repeated_group-append [] = refl
has_repeated_group-append (lit c ∷ items) = has_repeated_group-append items
has_repeated_group-append (opt c ∷ items) = has_repeated_group-append items
has_repeated_group-append (any ∷ items) = has_repeated_group-append items
has_repeated_group-append (group name ∷ items) =
    ap₂ (λ (a b : Bool). a || b) (names_group-append name items) (has_repeated_group-append items)

-- A pattern whose arguments' names differ, with the optional slash at its end, compiles to its pieces.
pub compile-print_pieces :
    (pieces : List Piece)
    → IsPattern pieces
    → has_repeated_group (items_of pieces) ≡ false
    → compile (sub_path_args (print_pieces pieces ++ codes "/?"))
      ≡ some (items_of pieces ++ opt b'/' ∷ [])
unfolding compile sub_path_args reject_repeated
compile-print_pieces pieces h d =
    let slashed : sub_from none (codes "/?") ≡ codes "/?" = unfold sub_from in refl in
    ap (λ (x : Bytes). reject_repeated (compile_from false plain x))
      (sub_from-print_pieces pieces (codes "/?") h
        ∙ ap (λ (x : Bytes). source_of pieces ++ x) slashed)
    ∙ ap reject_repeated (compile_from-source_of pieces h)
    ∙ rw (has_repeated_group-append (items_of pieces), d) refl
