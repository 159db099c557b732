-- ===== src/Profile/Lines/Coverage.antt =====
-- levin/utils/profile.py: which lines `get_lines` gives.
use levin.Prelude.{
  ℕ, ◌+◌, ◌≡◌, refl, sym, ap, ◌∙◌, Bool, ◌||◌, Option, none, some, List, [], ◌∷◌, map, Bool-cases,
  inl, inr,
}
use levin.Bytes.{Str}
use levin.Result.{Result, ok}
use levin.Profile.{Code, CallResult, Profile}
use levin.Profile.Lines.{
  Key, key_of, same_key, Lines, put_line, find_line, put_calls, values, line_or_new, set_memory,
  get_line, add_line, add_text, add_texts, add_source, add_functions, get_lines, is_blank,
}
use levin.Profile.Lines.Keys.{
  Returns, Returns-bind, member, text_keys, source_keys, function_keys, IsSaved, AreSaved, has_line,
  IsKeyed, with_depth, line_or_new-key, Adds, Adds-bind, Adds-nothing, Adds-put_line,
}
use levin.Profile.Lines.Order.{IsSorted, sorted-IsSorted, member-sorted}

module _ (memory : CallResult → Result ℕ)
    (total : (c : CallResult) → Returns (λ n. Unit) (memory c)) where
  set_memory-key :
      (line : CallResult)
      → Returns (λ (line' : CallResult). key_of line' ≡ key_of line) (set_memory memory line)
  unfolding set_memory
  set_memory-key line =
      Returns-bind (λ n. Unit) (λ (line' : CallResult). key_of line' ≡ key_of line) (memory line) _
        (λ mem t. refl) (total line)

  add_line-Adds :
      (depth filename func_lineno lineno : ℕ) (lines : Lines)
      → IsKeyed lines
      → Adds
          ((lineno + func_lineno, filename, depth) ∷ [])
          lines
          (add_line memory depth filename func_lineno lineno lines)
  unfolding add_line get_line
  add_line-Adds depth filename func_lineno lineno lines h =
      let key : Key = (lineno + func_lineno, filename, depth) in
      let found = line_or_new (find_line key lines) lineno func_lineno filename in
      let Q : Lines → Type 0 = λ lines'.
        IsKeyed lines'
        × ((k : Key) → has_line k lines' ≡ (has_line k lines || member k (key ∷ []))) in
      Returns-bind (λ (line : CallResult). key_of line ≡ key_of found) Q (set_memory memory found) _
        (λ line e.
          Returns-bind
            (λ (line' : CallResult). key_of line' ≡ key_of (record line { depth = depth })) Q
            (set_memory memory (record line { depth = depth })) _
            (λ line' e'. Adds-put_line line' key lines h (
              e'
              ∙ ap (with_depth depth) e
              ∙ line_or_new-key lines lineno func_lineno filename depth h))
            (set_memory-key (record line { depth = depth })))
        (set_memory-key found)

  add_texts-Adds :
      (depth filename func_lineno lineno : ℕ) (texts : List Str) (lines : Lines)
      → IsKeyed lines
      → Adds
          (text_keys depth filename func_lineno lineno texts)
          lines
          (add_texts memory depth filename func_lineno lineno texts lines)
  unfolding add_texts add_text
  add_texts-Adds depth filename func_lineno lineno [] lines h = Adds-nothing lines h
  add_texts-Adds depth filename func_lineno lineno (text ∷ texts) lines h =
      elim (Bool-cases (is_blank text)) [
        | inl e ↦ rw e (add_texts-Adds depth filename func_lineno (lineno + 1) texts lines h)
        | inr e ↦ rw e (
            Adds-bind ((lineno + func_lineno, filename, depth) ∷ []) _ lines _ _
              (add_line-Adds depth filename func_lineno lineno lines h)
              (λ lines' h'. add_texts-Adds depth filename func_lineno (lineno + 1) texts lines' h'))
      ]

  add_source-Adds :
      (depth filename func_lineno : ℕ) (source : Option (List Str)) (lines : Lines)
      → IsSaved source
      → IsKeyed lines
      → Adds
          (source_keys depth filename func_lineno source)
          lines
          (add_source memory depth filename func_lineno source lines)
  unfolding add_source
  add_source-Adds depth filename func_lineno none lines s h = s
  add_source-Adds depth filename func_lineno (some []) lines s h = Adds-nothing lines h
  add_source-Adds depth filename func_lineno (some (head ∷ texts)) lines s h =
      add_texts-Adds depth filename func_lineno 1 texts lines h

  add_functions-Adds :
      (depth : ℕ) (sources : List ((ℕ × ℕ) × List Str)) (codes : List Code) (lines : Lines)
      → AreSaved sources codes
      → IsKeyed lines
      → Adds
          (function_keys depth sources codes)
          lines
          (add_functions memory depth sources codes lines)
  unfolding add_functions
  add_functions-Adds depth sources [] lines s h = Adds-nothing lines h
  add_functions-Adds depth sources (code ∷ codes) lines s h =
      Adds-bind _ _ lines _ _ (add_source-Adds depth code.filename code.firstlineno _ lines s.0 h)
        (λ lines' h'. add_functions-Adds (depth + 1) sources codes lines' s.1 h')

-- A recorded call under each of the keys
put_calls-Adds :
    (calls : List CallResult) (lines : Lines)
    → IsKeyed lines
    → Adds (map key_of calls) lines (ok (put_calls calls lines))
unfolding put_calls
put_calls-Adds [] lines h = Adds-nothing lines h
put_calls-Adds (c ∷ calls) lines h =
    Adds-bind (key_of c ∷ []) (map key_of calls) lines (ok (put_line (key_of c) c lines))
      (λ lines'. ok (put_calls calls lines')) (Adds-put_line c (key_of c) lines h refl)
      (λ lines' h'. put_calls-Adds calls lines' h')

member-values :
    (k : Key) (lines : Lines)
    → IsKeyed lines
    → member k (map key_of (values lines)) ≡ has_line k lines
member-values k [] h = refl
member-values k ((j, c) ∷ lines) h =
    ap (λ (x : Key). same_key x k || member k (map key_of (values lines))) (sym h.0)
    ∙ ap (λ (b : Bool). same_key j k || b) (member-values k lines h.1)

-- With the source of every function saved, and a memory for every call, `get_lines` returns; what it returns
-- is sorted by file, depth and line, and has a line of a number, a file and a depth if and only if a
-- call was recorded there or it is a line, not blank and not the first, of the function at that depth.
pub get_lines_complete :
    (memory : CallResult → Result ℕ) (p : Profile)
    → ((c : CallResult) → Returns (λ n. Unit) (memory c))
    → AreSaved p.functions_code p.target_func
    → Returns
        (λ (lines : List CallResult).
          IsSorted lines
          × ((k : Key)
              → member k (map key_of lines) ≡ (
                  member k (map key_of p.calls)
                  || member k (function_keys 1 p.functions_code p.target_func))))
        (get_lines memory p)
unfolding get_lines
get_lines_complete memory p total saved =
    let start = put_calls-Adds p.calls [] tt in
    Returns-bind
      (λ (lines : Lines).
        IsKeyed lines
        × ((k : Key)
            → has_line k lines ≡ (
                has_line k (put_calls p.calls [])
                || member k (function_keys 1 p.functions_code p.target_func))))
      _ (add_functions memory 1 p.functions_code p.target_func (put_calls p.calls [])) _
      (λ lines h. (
        sorted-IsSorted (values lines),
        λ k.
            member-sorted k (values lines)
            ∙ member-values k lines h.0
            ∙ h.1 k
            ∙ ap (λ (b : Bool). b || member k (function_keys 1 p.functions_code p.target_func))
                (start.1 k),
      ))
      (add_functions-Adds memory total 1 p.functions_code p.target_func (put_calls p.calls []) saved
        start.0)
