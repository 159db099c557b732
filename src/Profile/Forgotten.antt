-- ===== src/Profile/Forgotten.antt =====
-- levin/utils/profile.py: `_get_current_depth` of a function that is followed already.
use levin.Prelude.{
  ℕ, ◌+◌, ◌≡◌, refl, ap, ◌∙◌, true, false, Option, none, List, [], ◌∷◌, ◌++◌, ◌==◌, ==_refl, length,
  arith, Bool-cases, inl, inr,
}
use levin.Bytes.{Str}
use levin.Result.{Result, ok, ◌>>=◌}
use levin.Profile.{
  Code, Frame, Event, Profile, is_c_event, same_code, has_target, indexes_from, follow, save_behind,
  save_frame, depth_in, depth_at, current_depth, get_event_frame, get_current_depth,
  get_depth_at_recursion, count_same, depth_or_none, save_source,
}

same_code_refl : (c : Code) → same_code c c ≡ true
same_code_refl c = rw (==_refl c.filename, ==_refl c.firstlineno, ==_refl c.name)

-- Every place of an element that is added at the end.
indexes_from-append :
    (i : ℕ) (code : Code) (codes : List Code)
    → (n : ℕ) × (indexes_from i code (codes ++ code ∷ []) ≡ indexes_from i code codes ++ n ∷ [])
unfolding indexes_from
indexes_from-append i code [] = (i, rw (same_code_refl code))
indexes_from-append i code (other ∷ codes) =
    let (n, e) = indexes_from-append (i + 1) code codes in
    (n, elim (Bool-cases (same_code other code)) [ inl s ↦ rw (s, e) | inr s ↦ rw (s, e) ])

indexes_from_found :
    (i : ℕ) (code : Code) (codes : List Code)
    → has_target code codes ≡ true
    → (n : ℕ) × (rest : List ℕ) × (indexes_from i code codes ≡ n ∷ rest)
unfolding indexes_from has_target
indexes_from_found i code [] h = cc
indexes_from_found i code (other ∷ codes) h = elim (Bool-cases (same_code other code)) [
  | inl s ↦ (i, indexes_from (i + 1) code codes, rw s)
  | inr s ↦ rw s (indexes_from_found (i + 1) code codes (rw s at h))
]

count_same_other :
    (frame mother : Frame) (back : List Frame)
    → same_code frame.code mother.code ≡ false
    → count_same (frame ∷ mother ∷ back) ≡ ok 0
unfolding count_same
count_same_other frame mother back e = ground arith

-- Two places or more are taken for a recursion; with another function behind, its depth is None.
depth_at_two :
    (frame mother : Frame) (back : List Frame) (n m : ℕ) (rest : List ℕ)
    → same_code frame.code mother.code ≡ false
    → depth_at (frame ∷ mother ∷ back) (n ∷ (rest ++ m ∷ [])) ≡ ok none
unfolding depth_at get_depth_at_recursion depth_or_none
depth_at_two frame mother back n m [] e = rw (count_same_other frame mother back e) refl
depth_at_two frame mother back n m (k ∷ rest) e =
    rw (count_same_other frame mother back e) (ground arith)

module _ (source : Code → Result (List Str)) where
  save_frame_follows :
      (frame mother : Frame) (back : List Frame) (p : Profile) (lines : List Str)
      → has_target mother.code p.target_func ≡ true
      → (length p.target_func == p.depth) ≡ false
      → source frame.code ≡ ok lines
      → save_frame source frame (mother ∷ back) p
        ≡ ok (record p {
          target_func = p.target_func ++ frame.code ∷ [];
          functions_code =
              save_source (frame.code.filename, frame.code.firstlineno) lines p.functions_code;
        })
  unfolding save_frame save_behind follow
  save_frame_follows frame mother back p lines caller room s = rw (room, caller, s)

  depth_in-none :
      (frame mother : Frame) (back : List Frame) (p : Profile) (n m : ℕ) (rest : List ℕ)
      → same_code frame.code mother.code ≡ false
      → indexes_from 0 frame.code p.target_func ≡ n ∷ (rest ++ m ∷ [])
      → depth_in source frame (mother ∷ back) p ≡ ok (none, p)
  unfolding depth_in
  depth_in-none frame mother back p n m rest apart e =
      ap (λ (r : Result (Option ℕ)). r >>= (λ depth. ok (depth, p)))
        (ap (depth_at (frame ∷ mother ∷ back)) e ∙ depth_at_two frame mother back n m rest apart)

  -- A function that is followed already loses its depth at the next event of a C function in it, where its
  -- caller, another function, is followed too and fewer functions are followed than the depth: it is
  -- followed a second time, which is then taken for a recursion, and from there on the event gives None.
  pub get_current_depth_forgets :
      (event : Event) (frame mother : Frame) (back : List Frame) (p : Profile) (lines : List Str)
      → is_c_event event ≡ true
      → has_target frame.code p.target_func ≡ true
      → has_target mother.code p.target_func ≡ true
      → same_code frame.code mother.code ≡ false
      → (length p.target_func == p.depth) ≡ false
      → source frame.code ≡ ok lines
      → (p' : Profile) × (get_current_depth source event (frame ∷ mother ∷ back) p ≡ ok (none, p'))
        × (p'.target_func ≡ p.target_func ++ frame.code ∷ [])
  unfolding get_current_depth get_event_frame current_depth
  get_current_depth_forgets event frame mother back p lines c known caller apart room s =
      let (m, e) = indexes_from-append 0 frame.code p.target_func in
      let (n, rest, e') = indexes_from_found 0 frame.code p.target_func known in
      let p' : Profile = record p {
        target_func = p.target_func ++ frame.code ∷ [];
        functions_code =
            save_source (frame.code.filename, frame.code.firstlineno) lines p.functions_code;
      } in
      (
        p',
        rw c (
            ap (λ (r : Result Profile). r >>= depth_in source frame (mother ∷ back))
              (save_frame_follows frame mother back p lines caller room s)
            ∙ depth_in-none frame mother back p' n m rest apart
                (e ∙ ap (λ (l : List ℕ). l ++ m ∷ []) e')),
        refl,
      )
