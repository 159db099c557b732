-- ===== src/PatchRequest/Tests.antt =====
-- A request whose content type names a charset.
use levin.Prelude.{◌≡◌, refl, [], ◌∷◌, ◌++◌, some, arith}
use levin.Bytes.{codes, split, split_once, strip, contains_byte}
use levin.Dict.{lookup}
use levin.Common.{Request}
use levin.PatchRequest.{encoding, content_type_header, before_first}
use levin.PatchRequest.Charset.{encoding_charset}

abbrev posted : Request
posted = record {
  raw_path = codes "/";
  method = codes "POST";
  body = some (codes "{}");
  headers = (content_type_header, codes "application/json; charset=utf-8") ∷ [];
  stream = 0;
  protocol = codes "HTTP/1.1";
  scheme = codes "http";
  scope = [];
}

header_there :
    lookup content_type_header posted.headers
    ≡ some (codes "application/json" ++ b';' ∷ codes " charset=utf-8")
unfolding lookup
header_there = refl

encoding_charset_example : encoding posted ≡ codes "charset"
unfolding split split_once strip before_first contains_byte
encoding_charset_example =
    encoding_charset posted (codes "application/json") (codes " charset=utf-8") (omega arith)
      header_there
