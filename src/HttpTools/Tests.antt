-- ===== src/HttpTools/Tests.antt =====
-- A body in two callbacks.
use levin.Prelude.{◌≡◌, refl, true, some, [], ◌∷◌}
use levin.Bytes.{Bytes, codes}
use levin.HttpTools.{
  on_url, on_body, on_message_complete, fed, Feed, handle_request, take_callback, take_callbacks,
  empty_request,
}
use levin.HttpTools.Laws.{bodies, handle_request-last_body}

abbrev two_parts : Bytes → Feed
two_parts input = record {
  callbacks = on_url (codes "/") ∷ on_body (codes "ab") ∷ on_body input ∷ on_message_complete ∷ [];
  ending = fed;
  method = codes "POST";
  http_version = codes "1.1";
}

parts_ready : (take_callbacks (two_parts (codes "cd")).callbacks empty_request).ready ≡ true
unfolding take_callbacks take_callback
parts_ready = refl

handle_request-last_body_example :
    bodies (handle_request two_parts (codes "cd")) ≡ some (codes "cd") ∷ []
handle_request-last_body_example =
    handle_request-last_body two_parts (codes "cd") (on_url (codes "/") ∷ on_body (codes "ab") ∷ [])
      (on_message_complete ∷ []) (codes "cd") refl refl (tt, tt) parts_ready
