-- ===== src/Router/Regexp.antt =====
-- levin/components/router.py: PATH_ARG and PATH_REPL, and the part of Python's `re` that the patterns
-- built with them use: bytes that stand for themselves, an optional byte, ".", and groups
-- `(?P<name>[-_a-zA-Z0-9]+)`. Any other construct, a group's name that is no identifier and a name
-- given twice (for which `re.compile` raises) are refused by `compile`.
pub mod Groups
pub mod Pieces
pub mod Substituted
pub mod Compiled
pub mod Matched
use levin.Prelude.{
  ℕ, Bool, true, false, not, ◌&&◌, ◌||◌, Option, none, some, List, [], ◌∷◌, ◌++◌, leb, ◌==◌,
  if◌then◌else◌, is_empty,
}
use levin.Bytes.{Bytes, codes, eqb, contains_byte}

abbrev pub is_letter : ℕ → Bool
is_letter c = (leb b'a' c && leb c b'z') || (leb b'A' c && leb c b'Z')

abbrev pub is_digit : ℕ → Bool
is_digit c = leb b'0' c && leb c b'9'

-- [-_a-zA-Z0-9]
abbrev pub is_word : ℕ → Bool
is_word c = (c == b'-') || ((c == b'_') || (is_letter c || is_digit c))

-- PATH_REPL for one name
unfoldable pub group_source : Bytes → Bytes
group_source name = codes "(?P<" ++ (name ++ codes ">[-_a-zA-Z0-9]+)")

-- PATH_ARG.sub(PATH_REPL, pattern): `some name` holds the word read since an open brace.
unfoldable pub sub_from : Option Bytes → Bytes → Bytes
unfolding group_source
sub_from none [] = []
sub_from none (c ∷ s) =
    let opened = sub_from (some []) s in
    let kept = c ∷ sub_from none s in if c == b'{' then opened else kept
sub_from (some name) [] = b'{' ∷ name
sub_from (some name) (c ∷ s) =
    let longer = sub_from (some (name ++ c ∷ [])) s in
    let closed = group_source name ++ sub_from none s in
    let reopened = b'{' ∷ (name ++ sub_from (some []) s) in
    let dropped = b'{' ∷ (name ++ c ∷ sub_from none s) in
    if is_word c
    then longer
    else (if (c == b'}') && not (is_empty name)
        then closed
        else (if c == b'{' then reopened else dropped))

unfoldable pub sub_path_args : Bytes → Bytes
unfolding sub_from
sub_path_args = sub_from none

pub data Item : Type 0 where
  lit : ℕ → Item
  opt : ℕ → Item
  any : Item
  group : Bytes → Item

-- Where the reader of a pattern's source stands: outside a group, in its opening, in its name, or in
-- what follows the name.
pub data Mode : Type 0 where
  plain : Mode
  opening : Bytes → Mode
  naming : Bytes → Mode
  closing : Bytes → Bytes → Mode

abbrev is_special : ℕ → Bool
is_special c = contains_byte c (codes "*+?^$|)[]\\{}")

abbrev is_identifier : Bytes → Bool
is_identifier [] = false
is_identifier (c ∷ s) = ((c == b'_') || is_letter c) && not (contains_byte b'-' s)

push_item : Item → Option (List Item) → Option (List Item)
push_item item none = none
push_item item (some items) = some (item ∷ items)

abbrev next_is_question : Bytes → Bool
next_is_question [] = false
next_is_question (c ∷ s) = c == b'?'

-- `skip` says that the byte is a "?" that the byte before has taken.
unfoldable pub compile_from : Bool → Mode → Bytes → Option (List Item)
unfolding push_item contains_byte
compile_from skip plain [] = some []
compile_from skip (opening _) [] = none
compile_from skip (naming _) [] = none
compile_from skip (closing _ _) [] = none
compile_from true mode (c ∷ s) = compile_from false mode s
compile_from false plain (c ∷ s) =
    let grouped = compile_from false (opening (codes "?P<")) s in
    let dot = push_item any (compile_from false plain s) in
    let optional = push_item (opt c) (compile_from true plain s) in
    let literal = push_item (lit c) (compile_from false plain s) in
    if c == b'('
    then grouped
    else (if is_special c
        then none
        else (if next_is_question s
            then (if c == b'.' then none else optional)
            else (if c == b'.' then dot else literal)))
compile_from false (opening []) (c ∷ s) =
    let named = compile_from false (naming (c ∷ [])) s in if is_word c then named else none
compile_from false (opening (x ∷ xs)) (c ∷ s) =
    let next = compile_from false (opening xs) s in if c == x then next else none
compile_from false (naming name) (c ∷ s) =
    let longer = compile_from false (naming (name ++ c ∷ [])) s in
    let closed = compile_from false (closing name (codes "[-_a-zA-Z0-9]+)")) s in
    if is_word c then longer else (if (c == b'>') && is_identifier name then closed else none)
compile_from false (closing name []) (c ∷ s) = none
compile_from false (closing name (x ∷ [])) (c ∷ s) =
    let grouped = push_item (group name) (compile_from false plain s) in
    if c == x then (if next_is_question s then none else grouped) else none
compile_from false (closing name (x ∷ y ∷ xs)) (c ∷ s) =
    let next = compile_from false (closing name (y ∷ xs)) s in if c == x then next else none

abbrev names_group : Bytes → List Item → Bool
names_group name [] = false
names_group name (group other ∷ items) = eqb other name || names_group name items
names_group name (_ ∷ items) = names_group name items

abbrev pub has_repeated_group : List Item → Bool
has_repeated_group [] = false
has_repeated_group (group name ∷ items) = names_group name items || has_repeated_group items
has_repeated_group (_ ∷ items) = has_repeated_group items

reject_repeated : Option (List Item) → Option (List Item)
reject_repeated none = none
reject_repeated (some items) = if has_repeated_group items then none else some items

-- re.compile(source)
unfoldable pub compile : Bytes → Option (List Item)
unfolding compile_from reject_repeated
compile source = reject_repeated (compile_from false plain source)

abbrev pub Groups : Type 0
Groups = List (Bytes × Bytes)

capture : Bytes → Bytes → Option Groups → Option Groups
capture name text none = none
capture name text (some groups) = some ((name, text) ∷ groups)

or_else : Option Groups → Option Groups → Option Groups
or_else none other = other
or_else (some groups) other = some groups

-- A group takes as many bytes as it can, and gives back one at a time where the rest fails.
unfoldable pub match_group : Bytes → Bytes → (Bytes → Option Groups) → Bytes → Option Groups
unfolding capture or_else
match_group name taken rest [] = none
match_group name taken rest (c ∷ s) =
    let longer = match_group name (taken ++ c ∷ []) rest s in
    let here = capture name (taken ++ c ∷ []) (rest s) in
    if is_word c then or_else longer here else none

abbrev head_is : ℕ → Bytes → Bool
head_is b [] = false
head_is b (c ∷ s) = c == b

abbrev rest_of : Bytes → Bytes
rest_of [] = []
rest_of (c ∷ s) = s

-- regexp.fullmatch(s).groupdict(), or none
unfoldable pub fullmatch : List Item → Bytes → Option Groups
unfolding match_group
fullmatch [] s = if is_empty s then some [] else none
fullmatch (lit b ∷ items) s =
    let next = fullmatch items (rest_of s) in if head_is b s then next else none
fullmatch (opt b ∷ items) s =
    let taken = or_else (fullmatch items (rest_of s)) (fullmatch items s) in
    let left = fullmatch items s in if head_is b s then taken else left
fullmatch (any ∷ items) s =
    let next = fullmatch items (rest_of s) in if is_empty s || head_is 10 s then none else next
fullmatch (group name ∷ items) s = match_group name [] (fullmatch items) s
