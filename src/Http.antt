-- ===== src/Http.antt =====
-- internal/httpapi: what the handlers answer. A handler reads the parsed request, runs on the state
-- of the services and answers once.
use servicedesk.Common.{ℕ, String, List}
use servicedesk.Store.{Error, Result, ok, err}
use servicedesk.Middleware.{Denial}

-- What `http.Error` prints: a text of the handler's, or the text of an error behind one.
pub data Message : Type 0 where
  plain : String → Message
  error_text : String → Error → Message
  unresolved_emails : List String → Message

-- `http.Error` with its status code, `http.NotFound`, `http.Redirect`, the redirect to a ticket's
-- page, with or without a banner, and a page that is rendered, with its error.
pub data Response : Type 0 where
  http_error : ℕ → Message → Response
  not_found : Response
  redirect : String → Response
  to_ticket : ℕ → Response
  to_ticket_with_error : ℕ → Message → Response
  page : String → Message → Response
  denied : Denial → Response

-- The state after the handler, and its answer.
abbrev pub Handled : Type 0 → Type 0
Handled S = S × Response

-- `if err != nil { … }` around a call of a service, and what follows it.
abbrev pub after_call : {S A R : Type 0} → S × Result A → (Error → S → R) → (A → S → R) → R
after_call (s, ok a) refused done = done a s
after_call (s, err e) refused done = refused e s
