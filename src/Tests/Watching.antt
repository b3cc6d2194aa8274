-- ===== src/Tests/Watching.antt =====
-- A customer invites by email.
use servicedesk.Common.{ℕ, String, ◌≡◌, refl, inl, inr, none, List, [], ◌∷◌, All}
use servicedesk.Models.Roles.{User, customer}
use servicedesk.Models.Tickets.{Watcher, in_progress}
use servicedesk.Store.Memory.{memory, memory_adds}
use servicedesk.Ticket.Desk.{Desk, get_ticket}
use servicedesk.Ticket.Edits.{watch_by_emails, invitee}
use servicedesk.Ticket.Lifecycle.{add_watcher}
use servicedesk.Ticket.Edits.Invitations.{AddsAtMost, IsInvitable, watch_by_emails-IsInvitable}
use servicedesk.Tests.Fixtures.{an_env, desk, ticket, a_customer}

abbrev guest : ℕ → String → User
guest id email = record {
  id = id;
  username = email;
  email = email;
  password_hash = "";
  role = customer;
  source = "local";
  api_token_id = none;
  api_token_hash = none;
  created_at = 0;
}

-- One of the two guests belongs to the organization.
abbrev meeting : Desk
meeting = record (desk (ticket 1 in_progress ∷ [])) {
  users = guest 11 "in@example.org" ∷ guest 12 "out@example.org" ∷ [];
  org_members = record { org_id = 1; user_id = 11 } ∷ [];
}

abbrev emails : List String
emails = "in@example.org" ∷ "out@example.org" ∷ "nobody@example.org" ∷ []

invited_one :
    (watch_by_emails an_env (λ s. s) a_customer 1 emails meeting).0.watchers
    ≡ record { ticket_id = 1; user_id = 11 } ∷ []
unfolding memory watch_by_emails get_ticket invitee add_watcher
invited_one = refl

joined-AddsAtMost : AddsAtMost an_env
unfolding memory
joined-AddsAtMost p r r' rows after h =
    elim (memory_adds (λ (w : Watcher). 0) (λ i w. w) r r' rows after p h) [
      | inl same ↦ inl same
      | inr (i, more) ↦ inr more
    ]

watch_by_emails-IsInvitable_example :
    All
      (IsInvitable an_env 1 1 meeting)
      (watch_by_emails an_env (λ s. s) a_customer 1 emails meeting).0.watchers
unfolding memory get_ticket
watch_by_emails-IsInvitable_example =
    watch_by_emails-IsInvitable an_env joined-AddsAtMost (λ s. s) a_customer 1 emails meeting
      (ticket 1 in_progress) refl refl
