-- ===== src/Component/Tests.antt =====
-- A component's settings before and after `configure`.
use levin.Prelude.{◌≡◌, refl, true, false, none, [], ◌∷◌}
use levin.Bytes.{codes, starts_with}
use levin.Dict.{Dict, lookup, put}
use levin.Common.{Value}
use levin.Component.{Component, configure}
use levin.Component.Laws.{is_reserved}

abbrev limit : Component
limit = record {
  ident = 1;
  name = codes "handler_timeout";
  class_vars =
      record { name = codes "name"; is_property = false; is_method = false }
      ∷ record { name = codes "timeout"; is_property = false; is_method = false }
      ∷ record { name = codes "start"; is_property = false; is_method = true }
      ∷ [];
  settings = (codes "timeout", Value.int 10) ∷ [];
  enable = true;
  has_middleware = true;
  start_error = none;
  stop_error = none;
}

abbrev given : Dict Value
given =
    (codes "timeout", Value.int 3)
    ∷ (codes "name", Value.str (codes "x"))
    ∷ (codes "enable", Value.bool false)
    ∷ []

configured :
    configure given limit
    ≡ record limit { settings = (codes "timeout", Value.int 3) ∷ []; enable = false }
unfolding configure starts_with lookup put
configured = refl

name_reserved : is_reserved (codes "name") ≡ true
unfolding starts_with
name_reserved = refl
