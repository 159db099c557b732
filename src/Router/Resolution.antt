-- ===== src/Router/Resolution.antt =====
-- levin/components/router.py: `_resolve` and the middleware. A request's path is settled where reading it
-- gives bytes and changes nothing.
use levin.Prelude.{
  ℕ, ◌≡◌, ◌≢◌, ◌⊎◌, Bool, ◌||◌, refl, sym, ap, ◌∙◌, false, Option, none, some, [], ◌∷◌, ◌++◌,
  append-nil, arith, All, inl, inr, Bool-cases, if◌then◌else◌, true,
}
use mathlib.Core.Path.{subst}
use levin.Common.ScopeLaws.{get_once}
use levin.Bytes.{Bytes, codes, eqb}
use levin.Bytes.Equality.{eqb_iff}
use levin.Result.{ok}
use levin.Dict.{Dict, lookup, has_key}
use levin.Dict.Laws.{lookup-put, lookup_of_absent, lookup_of_present}
use levin.Common.{Value, Attr, value, Request, LazyCall, set, path, get}
use levin.Router.{
  Condition, method_of, matches_path, match_value, Routes, call_condition, resolve, after_condition,
  set_all, offer_routing, apply_route, middleware,
}

-- What a condition says of a method and a path.
abbrev pub accepts : Condition → Bytes → Bytes → Option (Dict Value)
accepts condition method p =
    if eqb (method_of condition) method then matches_path condition p else none

path-cases : (o : Option Attr) → (o ≡ none) ⊎ (o ≢ none)
path-cases none = inl refl
path-cases (some a) = inr (λ e. cc)

path_absent :
    (call : LazyCall) (r : Request)
    → lookup (codes "path") r.scope ≡ none
    → path call r ≡ (ok (Value.bytes r.raw_path), r)
unfolding path get
path_absent call r e = rw e refl

-- A read of the path that succeeds settles it.
path_once :
    (call : LazyCall) (r r' : Request) (v : Value)
    → path call r ≡ (ok v, r')
    → path call r' ≡ (ok v, r')
unfolding path
path_once call r r' v e = elim (path-cases (lookup (codes "path") r.scope)) [
  | inl gone ↦
      let kept : r ≡ r' = ap (λ x. x.1) (sym (path_absent call r gone) ∙ e) in
      subst (λ (x : Request). path call x ≡ (ok v, r')) kept e
  | inr there ↦
      get_once call call (codes "path") (Value.bytes r.raw_path) (Value.bytes r'.raw_path) r there e
]

module _ (call : LazyCall) (r : Request) (p : Bytes)
    (settled : path call r ≡ (ok (Value.bytes p), r)) where
  call_condition_settled :
      (c : Condition) → call_condition call c r ≡ (ok (accepts c r.method p), r)
  unfolding call_condition match_value
  call_condition_settled c = elim (Bool-cases (eqb (method_of c) r.method)) [
    | inl e ↦ rw (e, settled)
    | inr e ↦ rw e
  ]

  resolve_skips :
      (not_found : ℕ) (before routes : Routes)
      → All (λ route. accepts route.0 r.method p ≡ none) before
      → resolve call not_found (before ++ routes) r ≡ resolve call not_found routes r
  unfolding resolve
  resolve_skips not_found [] routes h = refl
  resolve_skips not_found ((c, handler) ∷ before) routes (h, hs) =
      step ∙ resolve_skips not_found before routes hs
    where
      said : call_condition call c r ≡ (ok none, r)
      said = call_condition_settled c ∙ ap (λ o. (ok o, r)) h

      step :
          resolve call not_found ((c, handler) ∷ (before ++ routes)) r
          ≡ resolve call not_found (before ++ routes) r
      step = ap (after_condition handler (resolve call not_found (before ++ routes))) said

  resolve-none :
      (not_found : ℕ) (before : Routes)
      → All (λ route. accepts route.0 r.method p ≡ none) before
      → resolve call not_found before r ≡ (ok (not_found, []), r)
  unfolding resolve
  resolve-none not_found before h =
      ap (λ routes. resolve call not_found routes r) (sym (append-nil before))
      ∙ resolve_skips not_found before [] h

  resolve_one :
      (not_found : ℕ) (before after : Routes) (c : Condition) (handler : ℕ) (found : Dict Value)
      → All (λ route. accepts route.0 r.method p ≡ none) before
      → accepts c r.method p ≡ some found
      → resolve call not_found (before ++ (c, handler) ∷ after) r ≡ (ok (handler, found), r)
  unfolding resolve
  resolve_one not_found before after c handler found h e =
      resolve_skips not_found before ((c, handler) ∷ after) h
      ∙ ap (after_condition handler (resolve call not_found after))
          (call_condition_settled c ∙ ap (λ o. (ok o, r)) e)

-- A condition of this method reads the path.
abbrev pub reads_path : Bytes → Routes → Bool
reads_path method [] = false
reads_path method ((c, handler) ∷ routes) = eqb (method_of c) method || reads_path method routes

module _ (call : LazyCall) (r r' : Request) (p : Bytes)
    (read : path call r ≡ (ok (Value.bytes p), r')) (same : r'.method ≡ r.method) where
  settled : path call r' ≡ (ok (Value.bytes p), r')
  settled = path_once call r r' (Value.bytes p) read

  other_method :
      (c : Condition) → eqb (method_of c) r.method ≡ false → call_condition call c r ≡ (ok none, r)
  unfolding call_condition
  other_method c e = rw e refl

  same_method :
      (c : Condition)
      → eqb (method_of c) r.method ≡ true
      → call_condition call c r ≡ (ok (matches_path c p), r')
  unfolding call_condition match_value
  same_method c e = rw (e, read) refl

  refused_after :
      (routes : Routes)
      → All (λ route. accepts route.0 r.method p ≡ none) routes
      → All (λ route. accepts route.0 r'.method p ≡ none) routes
  refused_after routes h =
      subst (λ (m : Bytes). All (λ route. accepts route.0 m p ≡ none) routes) (sym same) h

  resolve_refused :
      (not_found : ℕ) (before : Routes)
      → All (λ route. accepts route.0 r.method p ≡ none) before
      → resolve call not_found before r
        ≡ (ok (not_found, []), if reads_path r.method before then r' else r)
  unfolding resolve
  resolve_refused not_found [] h = refl
  resolve_refused not_found ((c, handler) ∷ before) (h, hs) =
      elim (Bool-cases (eqb (method_of c) r.method)) [
        | inl e ↦
            let said : call_condition call c r ≡ (ok none, r') =
              same_method c e ∙ ap (λ o. (ok o, r')) (rw e at h) in
            rw e (
              ap (after_condition handler (resolve call not_found before)) said
              ∙ resolve-none call r' p settled not_found before (refused_after before hs))
        | inr e ↦ rw e (
            ap (after_condition handler (resolve call not_found before)) (other_method c e)
            ∙ resolve_refused not_found before hs)
      ]

  resolve_found :
      (not_found : ℕ) (before after : Routes) (c : Condition) (handler : ℕ) (found : Dict Value)
      → All (λ route. accepts route.0 r.method p ≡ none) before
      → accepts c r.method p ≡ some found
      → resolve call not_found (before ++ (c, handler) ∷ after) r ≡ (ok (handler, found), r')
  unfolding resolve
  resolve_found not_found [] after c handler found h k =
      elim (Bool-cases (eqb (method_of c) r.method)) [
        | inl e ↦
            ap (after_condition handler (resolve call not_found after))
              (same_method c e ∙ ap (λ o. (ok o, r')) (rw e at k))
        | inr e ↦ absurd (cc (rw e at k))
      ]
  resolve_found not_found ((d, other) ∷ before) after c handler found (h, hs) k =
      let rest = before ++ (c, handler) ∷ after in
      elim (Bool-cases (eqb (method_of d) r.method)) [
        | inl e ↦
            let said : call_condition call d r ≡ (ok none, r') =
              same_method d e ∙ ap (λ o. (ok o, r')) (rw e at h) in
            ap (after_condition other (resolve call not_found rest)) said
            ∙ resolve_one call r' p settled not_found before after c handler found
                (refused_after before hs)
                (subst (λ (m : Bytes). accepts c m p ≡ some found) (sym same) k)
        | inr e ↦
            ap (after_condition other (resolve call not_found rest)) (other_method d e)
            ∙ resolve_found not_found before after c handler found hs k
      ]

  -- Where reading the path gives bytes, lazily or not, and keeps the request's method: the first route whose
  -- condition accepts the method and the path gives the handler and what the condition found; where none
  -- does, the not-found handler is given, with nothing found. The request is as that read leaves it, or as
  -- it was, where no condition that was tried has its method, so that none read the path.
  pub resolve_lem :
      (not_found : ℕ) (before after : Routes) (c : Condition) (handler : ℕ) (found : Dict Value)
      → All (λ route. accepts route.0 r.method p ≡ none) before
      → accepts c r.method p ≡ some found
      → (resolve call not_found before r
          ≡ (ok (not_found, []), if reads_path r.method before then r' else r))
        × (resolve call not_found (before ++ (c, handler) ∷ after) r ≡ (ok (handler, found), r'))
  resolve_lem not_found before after c handler found h e =
      (resolve_refused not_found before h, resolve_found not_found before after c handler found h e)

-- What the scope had, or else what the resolution found.
abbrev pub kept_or_found : Option Attr → Option Value → Option Attr
kept_or_found (some a) found = some a
kept_or_found none none = none
kept_or_found none (some v) = some (value v)

lookup-set :
    (k j : Bytes) (v : Value) (r : Request)
    → lookup k (set j (value v) false r).scope
      ≡ (if eqb j k then kept_or_found (lookup k r.scope) (some v) else lookup k r.scope)
unfolding set
lookup-set k j v r = elim (Bool-cases (has_key j r.scope)) [
  | inl there ↦ let (a, e) = lookup_of_present j r.scope there in ground (arith, eqb_iff j k)
  | inr absent ↦
      ground (arith, eqb_iff j k, lookup-put j k (value v) r.scope, lookup_of_absent j r.scope)
]

kept_twice :
    (o : Option Attr) (v : Value) (rest : Option Value)
    → kept_or_found (kept_or_found o (some v)) rest ≡ kept_or_found o (some v)
kept_twice none v rest = refl
kept_twice (some a) v rest = refl

-- Every attribute of the scope is kept, and what was found is added under the other keys.
lookup-set_all :
    (k : Bytes) (found : Dict Value) (r : Request)
    → lookup k (set_all found r).scope ≡ kept_or_found (lookup k r.scope) (lookup k found)
unfolding set_all lookup
lookup-set_all k [] r = ground arith
lookup-set_all k ((j, v) ∷ found) r =
    lookup-set_all k found (set j (value v) false r)
    ∙ ap (λ o. kept_or_found o (lookup k found)) (lookup-set k j v r)
    ∙ by_key
  where
    by_key :
        kept_or_found
          (if eqb j k then kept_or_found (lookup k r.scope) (some v) else lookup k r.scope)
          (lookup k found)
        ≡ kept_or_found (lookup k r.scope) (lookup k ((j, v) ∷ found))
    by_key = elim (Bool-cases (eqb j k)) [
      | inl e ↦ rw e (kept_twice (lookup k r.scope) v (lookup k found))
      | inr e ↦ rw e
    ]

-- Where the resolution gives a handler, the middleware passes that handler on, and a request in whose
-- scope every attribute that was there is as the resolution left it; a key that the scope lacks holds
-- what the condition found under it.
pub middleware_lem :
    (call : LazyCall) (not_found : ℕ) (routes : Routes) (r s : Request) (handler : ℕ)
    (found : Dict Value) (k : Bytes)
    → resolve call not_found routes (offer_routing r) ≡ (ok (handler, found), s)
    → (out : Request) × (middleware call not_found routes r ≡ (ok handler, out))
      × (lookup k out.scope ≡ kept_or_found (lookup k s.scope) (lookup k found))
unfolding middleware apply_route
middleware_lem call not_found routes r s handler found k e =
    (set_all found s, ap apply_route e, lookup-set_all k found s)
