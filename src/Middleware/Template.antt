-- ===== src/Middleware/Template.antt =====
-- string.Template.safe_substitute, by which `TemplateFormat.render` fills a template.
use levin.Prelude.{
  ℕ, Bool, ◌&&◌, ◌||◌, not, Option, none, some, [], ◌∷◌, ◌++◌, ◌==◌, leb, is_empty, if◌then◌else◌,
}
use levin.Bytes.{Str}
use levin.Dict.{Dict, lookup}

abbrev pub is_ident_start : ℕ → Bool
is_ident_start c = (c == b'_') || ((leb b'a' c && leb c b'z') || (leb b'A' c && leb c b'Z'))

abbrev pub is_ident : ℕ → Bool
is_ident c = is_ident_start c || (leb b'0' c && leb c b'9')

-- Where the scan is: in text, behind a dollar, in a name, or in a name behind a brace.
pub data Mode : Type 0 where
  plain dollar : Mode
  named braced : Str → Mode

abbrev or_else : Option Str → Str → Str
or_else none s = s
or_else (some v) s = v

-- The value of a name, or what stands in the text.
abbrev pub named_value : Dict Str → Str → Str
named_value kwargs name = or_else (lookup name kwargs) (b'$' ∷ name)

abbrev pub braced_value : Dict Str → Str → Str
braced_value kwargs name = or_else (lookup name kwargs) (b'$' ∷ (b'{' ∷ (name ++ b'}' ∷ [])))

-- May the character stand at this place of a name in braces?
abbrev pub continues : Str → ℕ → Bool
continues [] c = is_ident_start c
continues (d ∷ name) c = is_ident c

unfoldable pub scan : Dict Str → Mode → Str → Str
scan kwargs plain [] = []
scan kwargs plain (c ∷ s) =
    let after_dollar = scan kwargs dollar s in
    let kept = c ∷ scan kwargs plain s in if c == b'$' then after_dollar else kept
scan kwargs dollar [] = b'$' ∷ []
scan kwargs dollar (c ∷ s) =
    let escaped = b'$' ∷ scan kwargs plain s in
    let a_name = scan kwargs (named (c ∷ [])) s in
    let a_brace = scan kwargs (braced []) s in
    let kept = b'$' ∷ (c ∷ scan kwargs plain s) in
    if c == b'$'
    then escaped
    else (if is_ident_start c then a_name else (if c == b'{' then a_brace else kept))
scan kwargs (named name) [] = named_value kwargs name
scan kwargs (named name) (c ∷ s) =
    let longer = scan kwargs (named (name ++ c ∷ [])) s in
    let a_dollar = named_value kwargs name ++ scan kwargs dollar s in
    let kept = named_value kwargs name ++ c ∷ scan kwargs plain s in
    if is_ident c then longer else (if c == b'$' then a_dollar else kept)
scan kwargs (braced name) [] = b'$' ∷ (b'{' ∷ name)
scan kwargs (braced name) (c ∷ s) =
    let longer = scan kwargs (braced (name ++ c ∷ [])) s in
    let closed = braced_value kwargs name ++ scan kwargs plain s in
    let a_dollar = b'$' ∷ (b'{' ∷ (name ++ scan kwargs dollar s)) in
    let kept = b'$' ∷ (b'{' ∷ (name ++ c ∷ scan kwargs plain s)) in
    if continues name c
    then longer
    else (if (c == b'}') && not (is_empty name)
        then closed
        else (if c == b'$' then a_dollar else kept))

-- Template(text).safe_substitute(**kwargs)
unfoldable pub safe_substitute : Dict Str → Str → Str
unfolding scan
safe_substitute kwargs s = scan kwargs plain s
