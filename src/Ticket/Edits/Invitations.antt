-- ===== src/Ticket/Edits/Invitations.antt =====
-- Whom a customer can invite to watch a ticket.
use servicedesk.Common.{
  ℕ, String, Bool, true, ◌≡◌, refl, ◌⊎◌, inl, inr, List, [], ◌∷◌, ◌++◌, arith, All, ◌==◌, ◌&&◌,
  subst, sym, ◌∙◌, Bool-cases, str_eq,
}
use servicedesk.Models.Roles.{is_customer, User}
use servicedesk.Models.Tickets.{Ticket, Watcher}
use servicedesk.Auth.Claims.{Claims}
use servicedesk.Store.{Result, ok, err, Result-cases, All-append_one}
use servicedesk.Ticket.Desk.{Env, Desk, get_ticket}
use servicedesk.Ticket.Lifecycle.{add_watcher}
use servicedesk.Ticket.Edits.{
  Invitee, skipped, unresolved, invited, is_org_member, found_user, invitee, Invited, add_then,
  invite, invite_all, watch_by_emails,
}

-- FirstOrCreate leaves the rows as they are, or adds the given one.
abbrev pub AddsAtMost : Env → Type 0
AddsAtMost e =
    (p : Watcher → Bool) (r r' : Watcher) (rows after : List Watcher)
    → e.watchers_table.first_or_create p r rows ≡ ok (r', after)
    → (after ≡ rows) ⊎ (after ≡ rows ++ r ∷ [])

-- The user is counted as a member of the organization.
abbrev pub IsOrgMember : Env → ℕ → Desk → ℕ → Type 0
IsOrgMember e org d user_id = is_org_member e org user_id d ≡ true

Among : Watcher → List Watcher → Type 0
Among w [] = ⊥
Among w (x ∷ rows) = (w ≡ x) ⊎ Among w rows

-- The row was there before, or it is a member of the organization who watches the ticket.
pub IsInvitable : Env → ℕ → ℕ → Desk → Watcher → Type 0
unfolding Among
IsInvitable e id org d w = Among w d.watchers ⊎ ((w.ticket_id ≡ id) × IsOrgMember e org d w.user_id)

All-map :
    {P Q : Watcher → Type 0} (f : (w : Watcher) → P w → Q w) (rows : List Watcher)
    → All P rows
    → All Q rows
All-map f [] h = tt
All-map f (x ∷ rows) h = (f x h.0, All-map f rows h.1)

All-Among : (rows : List Watcher) → All (λ w. Among w rows) rows
unfolding Among
All-Among [] = tt
All-Among (x ∷ rows) = (inl refl, All-map (λ w h. inr h) rows (All-Among rows))

module _ (e : Env) (adds : AddsAtMost e) (actor : Claims) (cust : is_customer actor.role ≡ true)
    (id : ℕ) (P : Watcher → Type 0) where
  row : ℕ → Watcher
  row user_id = record { ticket_id = id; user_id = user_id }

  added :
      (u : ℕ) (d : Desk) → P (row u) → All P d.watchers → All P (add_watcher e id u d).0.watchers
  unfolding add_watcher row
  added u d p h =
      elim (Result-cases (
        e.watchers_table.first_or_create (λ w. w.ticket_id == id && w.user_id == u)
          (record { ticket_id = id; user_id = u }) d.watchers)) [
            | inr (x, q) ↦ rw (q, add_watcher) h
            | inl ((r, rows), q) ↦
                rw (q, add_watcher)
                  (elim (adds _ (row u) r d.watchers rows q) [
                    | inl same ↦ subst (All P) (sym same) h
                    | inr more ↦ subst (All P) (sym more) (All-append_one P (row u) d.watchers p h)
                  ])
          ]

  added-members : (u : ℕ) (d : Desk) → (add_watcher e id u d).0.org_members ≡ d.org_members
  unfolding add_watcher
  added-members u d = ground arith

  found-IsOrgMember :
      (t : Ticket) (email : String) (d : Desk) (r : Result User) (u : ℕ)
      → found_user e actor t email d r ≡ invited u
      → IsOrgMember e t.org_id d u
  unfolding found_user
  found-IsOrgMember t email d (err x) u h = absurd (cc)
  found-IsOrgMember t email d (ok usr) u h = elim (Bool-cases (is_org_member e t.org_id usr.id d)) [
    | inl y ↦
        let same : invited usr.id ≡ invited u = rw (cust, y) at h in
        subst (λ k. is_org_member e t.org_id k d ≡ true) (cc same) y
    | inr n ↦ let other : unresolved email ≡ invited u = rw (cust, n) at h in absurd (cc other)
  ]

  invitee-IsOrgMember :
      (t : Ticket) (email : String) (d : Desk) (u : ℕ)
      → invitee e actor t email d ≡ invited u
      → IsOrgMember e t.org_id d u
  unfolding invitee
  invitee-IsOrgMember t email d u h = elim (Bool-cases (str_eq email "")) [
    | inl y ↦ let other : skipped ≡ invited u = rw (y, invitee) at h in absurd (cc other)
    | inr n ↦
        found-IsOrgMember t email d (e.users_table.first (λ x. str_eq x.email email) d.users) u
          (rw (n, invitee) at h)
  ]

  module _ (t : Ticket) (first : Desk)
      (allowed : (u : ℕ) → IsOrgMember e t.org_id first u → P (row u)) where
    -- What the rest of the loop needs, and keeps.
    Kept : Desk → Type 0
    Kept d = All P d.watchers × (d.org_members ≡ first.org_members)

    same_members :
        (d : Desk) (u : ℕ)
        → d.org_members ≡ first.org_members
        → IsOrgMember e t.org_id d u
        → IsOrgMember e t.org_id first u
    same_members d u s h = rw s at h

    add_then-All :
        (r : Desk × Result (Unit {0})) (left : List String) (rest : Desk → Invited)
        → Kept r.0
        → ((d' : Desk) → Kept d' → All P (rest d').0.watchers)
        → All P (add_then r left rest).0.watchers
    unfolding add_then Kept
    add_then-All (d, ok x) left rest h k = k d h
    add_then-All (d, err x) left rest h k = h.0

    invite-All :
        (i : Invitee) (left : List String) (d : Desk) (rest : List String → Desk → Invited)
        → ((u : ℕ) → i ≡ invited u → IsOrgMember e t.org_id d u)
        → Kept d
        → ((left' : List String) (d' : Desk) → Kept d' → All P (rest left' d').0.watchers)
        → All P (invite e id i left d rest).0.watchers
    unfolding invite Kept
    invite-All skipped left d rest m h k = k left d h
    invite-All (unresolved email) left d rest m h k = k (left ++ email ∷ []) d h
    invite-All (invited u) left d rest m h k =
        add_then-All (add_watcher e id u d) left (rest left)
          (added u d (allowed u (same_members d u h.1 (m u refl))) h.0, added-members u d ∙ h.1)
          (k left)

    invite_all-All :
        (trim : String → String) (emails left : List String) (d : Desk)
        → Kept d
        → All P (invite_all e actor id t trim emails left d).0.watchers
    unfolding invite_all Kept
    invite_all-All trim [] left d h = h.0
    invite_all-All trim (raw ∷ emails) left d h =
        invite-All (invitee e actor t (trim raw) d) left d (invite_all e actor id t trim emails)
          (invitee-IsOrgMember t (trim raw) d) h
          (λ left' d' h'. invite_all-All trim emails left' d' h')

-- A customer invites nobody from outside: whoever watches the ticket after a customer invited by
-- email watched it before, or is counted as a member of the organization of the ticket. FirstOrCreate
-- is taken to add at most the row that it is given.
pub watch_by_emails-IsInvitable :
    (e : Env)
    → AddsAtMost e
    → (trim : String → String) (actor : Claims) (id : ℕ) (emails : List String) (d : Desk)
      (t : Ticket)
    → is_customer actor.role ≡ true
    → get_ticket e id d ≡ (d, ok t)
    → All (IsInvitable e id t.org_id d) (watch_by_emails e trim actor id emails d).0.watchers
unfolding watch_by_emails IsInvitable row Kept
watch_by_emails-IsInvitable e adds trim actor id emails d t cust found =
    rw (found, watch_by_emails)
      (invite_all-All e adds actor cust id (IsInvitable e id t.org_id d) t d (λ u m. inr (refl, m))
        trim emails [] d (All-map (λ w h. inl h) d.watchers (All-Among d.watchers), refl))
