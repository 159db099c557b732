-- ===== src/Profile/Lines.antt =====
-- levin/utils/profile.py: `get_lines`, the recorded calls and the source lines of the functions that are
-- followed, as one sorted list. `get_lines` also writes `mem` to the recorded calls that it finds, which
-- nothing reads before the next `get_lines` writes it again.
pub mod Keys
pub mod Order
pub mod Coverage
use levin.Prelude.{
  ℕ, zero, suc, ◌+◌, Bool, true, false, not, ◌&&◌, ◌||◌, Option, none, some, List, [], ◌∷◌, ◌++◌,
  ◌==◌, leb, if◌then◌else◌, map, is_empty,
}
use levin.Bytes.{Str}
use levin.Result.{Result, ok, err, attribute_error, ◌>>=◌}
use levin.Profile.{Code, CallResult, Profile, get_function}

-- (line.lineno, line.filename, line.depth)
abbrev pub Key : Type 0
Key = ℕ × ℕ × ℕ

abbrev pub key_of : CallResult → Key
key_of c = (c.lineno, c.filename, c.depth)

unfoldable pub same_key : Key → Key → Bool
same_key (l, f, d) (l', f', d') = (l == l') && ((f == f') && (d == d'))

-- The dict `lines`, in order of insertion.
abbrev pub Lines : Type 0
Lines = List (Key × CallResult)

-- lines[key] = line
unfoldable pub put_line : Key → CallResult → Lines → Lines
unfolding same_key
put_line k c [] = (k, c) ∷ []
put_line k c ((j, old) ∷ lines) =
    if same_key j k then (j, c) ∷ lines else (j, old) ∷ put_line k c lines

-- lines.get(key)
unfoldable pub find_line : Key → Lines → Option CallResult
unfolding same_key
find_line k [] = none
find_line k ((j, c) ∷ lines) = if same_key j k then some c else find_line k lines

-- The dict of the recorded calls, added to `lines`.
unfoldable pub put_calls : List CallResult → Lines → Lines
unfolding put_line
put_calls [] lines = lines
put_calls (c ∷ calls) lines = put_calls calls (put_line (key_of c) c lines)

-- lines.values()
abbrev pub values : Lines → List CallResult
values [] = []
values ((k, c) ∷ lines) = c ∷ values lines

-- (a.filename, a.depth, a.lineno) <= (b.filename, b.depth, b.lineno)
unfoldable pub precedes : CallResult → CallResult → Bool
precedes a b =
    if a.filename == b.filename
    then (if a.depth == b.depth then leb a.lineno b.lineno else leb a.depth b.depth)
    else leb a.filename b.filename

unfoldable pub insert : CallResult → List CallResult → List CallResult
unfolding precedes
insert c [] = c ∷ []
insert c (d ∷ calls) = if precedes c d then c ∷ d ∷ calls else d ∷ insert c calls

-- sorted(calls, key=...): equal keys keep their order.
unfoldable pub sorted : List CallResult → List CallResult
unfolding insert
sorted [] = []
sorted (c ∷ calls) = insert c (sorted calls)

-- A statistic of `tracemalloc`: the frames of its traceback are files and lines.
pub record Statistic : Type 0 where
  pub size : ℕ
  pub traceback : List (ℕ × ℕ)

-- The characters that `str.strip` takes off
abbrev is_white : ℕ → Bool
is_white c =
    (leb 9 c && leb c 13)
    || ((leb 28 c && leb c 32)
        || ((leb 8192 c && leb c 8202)
            || ((c == 133)
                || ((c == 160)
                    || ((c == 5760)
                        || ((c == 8232)
                            || ((c == 8233) || ((c == 8239) || ((c == 8287) || (c == 12288))))))))))

-- not text.strip()
unfoldable pub is_blank : Str → Bool
is_blank [] = true
is_blank (c ∷ text) = is_white c && is_blank text

unfoldable pub has_frame : ℕ → ℕ → List (ℕ × ℕ) → Bool
has_frame filename lineno [] = false
has_frame filename lineno ((f, l) ∷ frames) =
    ((f == filename) && (l == lineno)) || has_frame filename lineno frames

unfoldable pub size_of : ℕ → ℕ → List Statistic → ℕ
unfolding has_frame
size_of filename lineno [] = 0
size_of filename lineno (s ∷ statistics) =
    if has_frame filename lineno s.traceback then s.size else size_of filename lineno statistics

-- The statistics of a snapshot, filtered by a file and a line, are a parameter.
module _ {Snapshot : Type 0} (statistics : Snapshot → ℕ → ℕ → List Statistic) where
  -- _get_memory_for_call(call): AttributeError where no snapshot was taken.
  unfoldable pub get_memory_for_call : Bool → Option Snapshot → CallResult → Result ℕ
  unfolding size_of
  get_memory_for_call false snapshot c = ok 0
  get_memory_for_call true none c = err attribute_error
  get_memory_for_call true (some snapshot) c =
      ok (size_of c.filename c.lineno (statistics snapshot c.filename c.lineno))

abbrev line_or_new : Option CallResult → ℕ → ℕ → ℕ → CallResult
line_or_new (some line) lineno func_lineno filename = line
line_or_new none lineno func_lineno filename = record {
  lineno = lineno + func_lineno;
  filename = filename;
  caller_lineno = func_lineno;
  depth = 0;
  start = 0;
  end = 0;
  ncalls = 0;
  mem = 0;
}

-- `_get_memory_for_call` of this profile
module _ (memory : CallResult → Result ℕ) where
  -- `line.mem = self._get_memory_for_call(line)`
  set_memory : CallResult → Result CallResult
  set_memory line = do mem ← memory line; ok (record line { mem = mem })

  -- _get_line(line, lineno, func_lineno, func_filename)
  unfoldable pub get_line : Option CallResult → ℕ → ℕ → ℕ → Result CallResult
  unfolding set_memory
  get_line line lineno func_lineno filename =
      set_memory (line_or_new line lineno func_lineno filename)

  add_line : ℕ → ℕ → ℕ → ℕ → Lines → Result Lines
  unfolding get_line put_line find_line
  add_line depth filename func_lineno lineno lines = do
    line ←
        get_line (find_line (lineno + func_lineno, filename, depth) lines) lineno func_lineno
          filename
    line' ← set_memory (record line { depth = depth })
    ok (put_line (key_of line') line' lines)

  add_text : ℕ → ℕ → ℕ → ℕ → Str → Lines → Result Lines
  unfolding add_line
  add_text depth filename func_lineno lineno text lines =
      if is_blank text then ok lines else add_line depth filename func_lineno lineno lines

  -- The inner loop, over the lines behind the first.
  unfoldable pub add_texts : ℕ → ℕ → ℕ → ℕ → List Str → Lines → Result Lines
  unfolding add_text
  add_texts depth filename func_lineno lineno [] lines = ok lines
  add_texts depth filename func_lineno lineno (text ∷ texts) lines = do
    lines' ← add_text depth filename func_lineno lineno text lines
    add_texts depth filename func_lineno (lineno + 1) texts lines'

  add_source : ℕ → ℕ → ℕ → Option (List Str) → Lines → Result Lines
  unfolding add_texts
  add_source depth filename func_lineno none lines = err attribute_error
  add_source depth filename func_lineno (some []) lines = ok lines
  add_source depth filename func_lineno (some (head ∷ texts)) lines =
      add_texts depth filename func_lineno 1 texts lines

  -- The outer loop, over the functions that are followed.
  unfoldable pub add_functions : ℕ → List ((ℕ × ℕ) × List Str) → List Code → Lines → Result Lines
  unfolding add_source
  add_functions depth sources [] lines = ok lines
  add_functions depth sources (code ∷ codes) lines = do
    lines' ←
        add_source depth code.filename code.firstlineno
          (get_function code.filename code.firstlineno sources) lines
    add_functions (depth + 1) sources codes lines'

  -- get_lines()
  unfoldable pub get_lines : Profile → Result (List CallResult)
  unfolding add_functions put_calls sorted
  get_lines p = do
    lines ← add_functions 1 p.functions_code p.target_func (put_calls p.calls [])
    ok (sorted (values lines))
