-- ===== src/Common/Proxy.antt =====
-- levin/core/common.py: `_HeadersProxy`, reads of a headers' map by any spelling of a name.
use levin.Prelude.{ℕ, Bool, Option, none, some, length}
use levin.Bytes.{Bytes, lower}
use levin.Result.{Result, ok, err, key_error}
use levin.Dict.{Dict, lookup, has_key}

pub record HeadersProxy : Type 0 where
  pub target : Dict Bytes

-- __getitem__
unfoldable pub get_item : HeadersProxy → Bytes → Result Bytes
get_item proxy item = elim (lookup (lower item) proxy.target) [
  | none ↦ err key_error
  | some value ↦ ok value
]

unfoldable pub get : HeadersProxy → Bytes → Option Bytes
get proxy item = lookup (lower item) proxy.target

-- __contains__
unfoldable pub contains : HeadersProxy → Bytes → Bool
contains proxy item = has_key (lower item) proxy.target

-- __len__
unfoldable pub len : HeadersProxy → ℕ
len proxy = length proxy.target
