-- ===== src/Common/ScopeLaws.antt =====
-- levin/core/common.py: `Request.get` and `Request.set` on lazy attributes.
use levin.Prelude.{
  ◌≡◌, refl, ◌≢◌, Bool, Option, none, some, arith, inl, inr, ◌⊎◌, sym, ◌∙◌, Bool-cases,
  if◌then◌else◌, not, ◌||◌,
}
use levin.Bytes.{Bytes}
use levin.Result.{Error, Result, ok, err}
use levin.Dict.{lookup, has_key}
use levin.Dict.Laws.{lookup-put_ne, lookup-put_self}
use levin.Common.{Value, Attr, value, lazy, Lazy, Request, LazyCall, set, get, store_attr}

module _ (call : LazyCall) (item : Bytes) (default : Value) (r : Request) where
  get_of_value :
      (v : Value) → lookup item r.scope ≡ some (value v) → get call item default r ≡ (ok v, r)
  unfolding get
  get_of_value v e = rw e

  get_of_lazy :
      (f : Lazy)
      → lookup item r.scope ≡ some (lazy f)
      → get call item default r ≡ store_attr item (call f r)
  unfolding get
  get_of_lazy f e = rw e

  pub get_of_absent : lookup item r.scope ≡ none → get call item default r ≡ (ok default, r)
  unfolding get
  get_of_absent e = rw e

store_attr-lookup :
    (item : Bytes) (out : Result Value × Request) {v : Value} {r' : Request}
    → store_attr item out ≡ (ok v, r')
    → lookup item r'.scope ≡ some (value v)
unfolding store_attr
store_attr-lookup item (ok w, s) {v} {r'} e = ground (arith, lookup-put_self item (value w) s.scope)
store_attr-lookup item (err x, s) e = cc

Attr-cases :
    (o : Option Attr)
    → (o ≡ none) ⊎ (((w : Value) × (o ≡ some (value w))) ⊎ ((f : Lazy) × (o ≡ some (lazy f))))
Attr-cases none = inl refl
Attr-cases (some (value w)) = inr (inl (w, refl))
Attr-cases (some (lazy f)) = inr (inr (f, refl))

-- A successful read of an attribute that is in the scope leaves its value there: the next read, with
-- any default and whatever lazy functions would do then, returns that value and changes nothing.
pub get_once :
    (call call' : LazyCall) (item : Bytes) (default default' : Value) (r : Request) {v : Value}
    {r' : Request}
    → lookup item r.scope ≢ none
    → get call item default r ≡ (ok v, r')
    → get call' item default' r' ≡ (ok v, r')
get_once call call' item default default' r {v} {r'} present e =
    elim (Attr-cases (lookup item r.scope)) [
      | inl gone ↦ absurd (present gone)
      | inr (inl (w, there)) ↦
          let same = get_of_value call item default r w there in
          get_of_value call' item default' r' v (cc (same, e, there))
      | inr (inr (f, there)) ↦
          get_of_value call' item default' r' v
            (store_attr-lookup item (call f r) (sym (get_of_lazy call item default r f there) ∙ e))
    ]

-- Where the function of a lazy attribute raises, the read raises the same, and what is in the
-- scope is what the function left there: nothing is stored for the attribute.
pub get_raises :
    (call : LazyCall) (item : Bytes) (default : Value) (r : Request) (f : Lazy) (x : Error)
    (s : Request)
    → lookup item r.scope ≡ some (lazy f)
    → call f r ≡ (err x, s)
    → get call item default r ≡ (err x, s)
unfolding store_attr
get_raises call item default r f x s there raises =
    get_of_lazy call item default r f there ∙ rw raises

-- `set` with a value: where it writes, the next read returns the value; where the key is there and
-- `rewrite` is false, the request is the same; and no other key's attribute changes.
pub set_lem :
    (call : LazyCall) (key j : Bytes) (default v : Value) (rewrite : Bool) (r : Request)
    → key ≢ j
    → (get call key default (set key (value v) rewrite r) ≡ (
        if not (has_key key r.scope) || rewrite
        then (ok v, set key (value v) rewrite r)
        else get call key default r))
      × (lookup j (set key (value v) rewrite r).scope ≡ lookup j r.scope)
unfolding set get
set_lem call key j default v rewrite r ne =
    elim (Bool-cases (not (has_key key r.scope) || rewrite)) [
      | inl writes ↦ rw (writes, lookup-put_self) (refl, lookup-put_ne key j (value v) r.scope ne)
      | inr keeps ↦ rw keeps (refl, refl)
    ]
