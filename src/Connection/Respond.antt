-- ===== src/Connection/Respond.antt =====
-- levin/core/connection.py: what a coroutine does to the connection when the application's handler answers.
use levin.Prelude.{
  ◌≡◌, refl, true, not, ◌&&◌, Option, none, some, List, [], ◌∷◌, is_empty, Bool-cases, inl, inr,
}
use levin.Result.{Error, Result, ok, err}
use levin.Common.{Request, Response, Push}
use levin.Connection.{
  ParserOps, ◌and_then◌, Connection, Handler, handle_request, answer, push_after, gather_pushes,
  handle_push, push_answer, first_error, write_response, supports_push, parser_of,
}
use levin.Connection.Futures.{SameFutures, SameFutures-trans, write_response-SameFutures}

module _ {P : Type 0} (ops : ParserOps P) (handler : Handler) where
  push_answer-SameFutures :
      (a : Result Response × Request) (c : Connection P)
      → SameFutures c (push_answer ops handler a c).1
  unfolding push_answer
  push_answer-SameFutures (err e, request) c = (refl, refl, refl)
  push_answer-SameFutures (ok response, request) c =
      write_response-SameFutures ops (record response { push = true }) request c

  first_error-state :
      (e : Option Error) (r : Option Error × Connection P) → (first_error ops handler e r).1 ≡ r.1
  unfolding first_error
  first_error-state none r = refl
  first_error-state (some e) r = refl

  gather_pushes-SameFutures :
      (request : Request) (pushes : List Push) (c : Connection P)
      → SameFutures c (gather_pushes ops handler request pushes c).1
  unfolding gather_pushes handle_push
  gather_pushes-SameFutures request [] c = (refl, refl, refl)
  gather_pushes-SameFutures request (push ∷ pushes) c =
      let pushed = handle_push ops handler request push c in
      rw (first_error-state pushed.0 (gather_pushes ops handler request pushes pushed.1)) (
        SameFutures-trans c pushed.1 (gather_pushes ops handler request pushes pushed.1).1
          (push_answer-SameFutures _ c) (gather_pushes-SameFutures request pushes pushed.1))

  push_after-SameFutures :
      (response : Response) (request : Request) (c : Connection P)
      → SameFutures c (push_after ops handler response request c).1
  unfolding push_after
  push_after-SameFutures response request c =
      elim (Bool-cases
        (not (is_empty response.pushes) && supports_push ops handler (parser_of c))) [
          | inl e ↦ rw e (gather_pushes-SameFutures request response.pushes c)
          | inr e ↦ rw e (refl, refl, refl)
        ]

  answer-SameFutures :
      (a : Result Response × Request) (c : Connection P) → SameFutures c (answer ops handler a c).1
  unfolding answer
  answer-SameFutures (err e, request) c = (refl, refl, refl)
  answer-SameFutures (ok response, request) c =
      after (write_response ops response request c).0
        (write_response-SameFutures ops response request c)
    where
      after :
          (w : Option Error × Connection P)
          → SameFutures c w.1
          → SameFutures c (w and_then push_after ops handler response request).1
      after (none, d) h =
          SameFutures-trans c d (push_after ops handler response request d).1 h
            (push_after-SameFutures response request d)
      after (some e, d) h = h

  pub handle_request-SameFutures :
      (request : Request) (c : Connection P)
      → SameFutures c (handle_request ops handler request c).1
  unfolding handle_request
  handle_request-SameFutures request c = answer-SameFutures _ c
