-- ===== src/Hub/Streams.antt =====
-- The streams of the clients against the log of the messages that were addressed to their users.
use servicedesk.Common.{
  suc, ℕ, List, [], ◌∷◌, ◌++◌, ◌≡◌, ◌≤◌, refl, sym, subst, inl, inr, arith, All, length,
  length-append, map_if, keep_if, not, ◌==◌, if◌then◌else◌, Bool-cases, ltb, ltb→lt, append_assoc,
}
use servicedesk.Ticket.Desk.{Env, Desk}
use servicedesk.Hub.{
  Message, Subscription, Hub, buffer_size, subscribe, cancel, is_recipient, offer, publish, receive,
  deliver,
}

-- A list is part of another: the same items in the same order, some left out.
pub data IsSublist : List Message → List Message → Type 0 where
  nothing : IsSublist [] []
  keeping : (m : Message) {xs ys : List Message} → IsSublist xs ys → IsSublist (m ∷ xs) (m ∷ ys)
  skipping : (m : Message) {xs ys : List Message} → IsSublist xs ys → IsSublist xs (m ∷ ys)

nothing-IsSublist : (ys : List Message) → IsSublist [] ys
nothing-IsSublist [] = nothing
nothing-IsSublist (y ∷ ys) = skipping y (nothing-IsSublist ys)

both_longer :
    (m : Message) {xs ys : List Message} → IsSublist xs ys → IsSublist (xs ++ m ∷ []) (ys ++ m ∷ [])
both_longer m nothing = keeping m nothing
both_longer m (keeping x s) = keeping x (both_longer m s)
both_longer m (skipping x s) = skipping x (both_longer m s)

longer : (m : Message) {xs ys : List Message} → IsSublist xs ys → IsSublist xs (ys ++ m ∷ [])
longer m nothing = skipping m nothing
longer m (keeping x s) = keeping x (longer m s)
longer m (skipping x s) = skipping x (longer m s)

pub data Step : Type 0 where
  subscribe_step : ℕ → Step
  cancel_step : ℕ → Step
  deliver_step : ℕ → Step
  publish_step : Desk → Message → Step

pub step : Env → Hub → Step → Hub
unfolding subscribe cancel deliver publish
step e h (subscribe_step user_id) = subscribe user_id h
step e h (cancel_step channel) = cancel channel h
step e h (deliver_step channel) = deliver channel h
step e h (publish_step d m) = publish e d m h

pub run : Env → Hub → List Step → Hub
unfolding step
run e h [] = h
run e h (s ∷ steps) = run e (step e h s) steps

-- The messages that the steps addressed to a user, after those of before.
logged : Env → Step → ℕ → List Message → List Message
logged e (publish_step d m) user_id log =
    if is_recipient e d m.ticket_id user_id then log ++ m ∷ [] else log
logged e (subscribe_step u) user_id log = log
logged e (cancel_step c) user_id log = log
logged e (deliver_step c) user_id log = log

pub addressed : Env → List Step → ℕ → List Message → List Message
unfolding logged
addressed e [] user_id log = log
addressed e (s ∷ steps) user_id log = addressed e steps user_id (logged e s user_id log)

-- What a stream is, given the messages that were addressed to its user.
pub IsFaithful : List Message → Subscription → Type 0
IsFaithful log s = (length s.buffer ≤ buffer_size) × IsSublist (s.written ++ s.buffer) log

pub AllFaithful : (ℕ → List Message) → Hub → Type 0
AllFaithful log h = All (λ s. IsFaithful (log s.user_id) s) h.subscribers

offer-IsFaithful :
    (log : List Message) (m : Message) (s : Subscription)
    → IsFaithful log s
    → IsFaithful (log ++ m ∷ []) (offer m s)
unfolding IsFaithful offer
offer-IsFaithful log m s (small, part) = elim (Bool-cases (ltb (length s.buffer) buffer_size)) [
  | inl y ↦ rw y (
    omega (arith, length-append s.buffer (m ∷ []), ltb→lt (length s.buffer) buffer_size y),
    subst (λ xs. IsSublist xs (log ++ m ∷ [])) (append_assoc s.written s.buffer (m ∷ []))
        (both_longer m part),
  )
  | inr n ↦ rw n (small, longer m part)
]

receive-IsFaithful :
    (log : List Message) (s : Subscription) → IsFaithful log s → IsFaithful log (receive s)
unfolding IsFaithful receive
receive-IsFaithful log s h = received s.buffer refl h.0 h.1
  where
    shorter : (n : ℕ) → suc n ≤ buffer_size → n ≤ buffer_size
    shorter n h = omega (arith, h)

    received :
        (b : List Message)
        → s.buffer ≡ b
        → length s.buffer ≤ buffer_size
        → IsSublist (s.written ++ s.buffer) log
        → IsFaithful log (receive s)
    received [] e small part = rw (e, receive) (small, part)
    received (m ∷ rest) e small part =
        rw (e, receive)
          (
            shorter (length rest) (rw e at small),
            subst (λ xs. IsSublist xs log) (sym (append_assoc s.written (m ∷ []) rest))
                (rw e at part),
          )

offer-user : (m : Message) (s : Subscription) → (offer m s).user_id ≡ s.user_id
unfolding offer
offer-user m s = elim (Bool-cases (ltb (length s.buffer) buffer_size)) [
  | inl y ↦ rw y refl
  | inr n ↦ rw n refl
]

receive-user : (s : Subscription) → (receive s).user_id ≡ s.user_id
unfolding receive
receive-user s = same s.buffer refl
  where
    same : (b : List Message) → s.buffer ≡ b → (receive s).user_id ≡ s.user_id
    same [] e = rw (e, receive) refl
    same (m ∷ rest) e = rw (e, receive) refl

module _ (log : ℕ → List Message) where
  delivered-All :
      (channel : ℕ) (subs : List Subscription)
      → All (λ s. IsFaithful (log s.user_id) s) subs
      → All (λ s. IsFaithful (log s.user_id) s) (map_if (λ s. s.channel == channel) receive subs)
  delivered-All channel [] h = tt
  delivered-All channel (s ∷ subs) h = elim (Bool-cases (s.channel == channel)) [
    | inl y ↦ (
      rw y (
          subst (λ u. IsFaithful (log u) (receive s)) (sym (receive-user s))
            (receive-IsFaithful (log s.user_id) s h.0)),
      delivered-All channel subs h.1,
    )
    | inr n ↦ (rw n h.0, delivered-All channel subs h.1)
  ]

  cancelled-All :
      (channel : ℕ) (subs : List Subscription)
      → All (λ s. IsFaithful (log s.user_id) s) subs
      → All (λ s. IsFaithful (log s.user_id) s) (keep_if (λ s. not (s.channel == channel)) subs)
  cancelled-All channel [] h = tt
  cancelled-All channel (s ∷ subs) h = elim (Bool-cases (s.channel == channel)) [
    | inl y ↦ rw y (cancelled-All channel subs h.1)
    | inr n ↦ rw n (h.0, cancelled-All channel subs h.1)
  ]

  published-All :
      (e : Env) (d : Desk) (m : Message) (subs : List Subscription)
      → All (λ s. IsFaithful (log s.user_id) s) subs
      → All
          (λ s. IsFaithful (logged e (publish_step d m) s.user_id (log s.user_id)) s)
          (map_if (λ s. is_recipient e d m.ticket_id s.user_id) (offer m) subs)
  unfolding logged
  published-All e d m [] h = tt
  published-All e d m (s ∷ subs) h = elim (Bool-cases (is_recipient e d m.ticket_id s.user_id)) [
    | inl y ↦ (
      rw y (
          subst (λ u. IsFaithful (logged e (publish_step d m) u (log u)) (offer m s))
            (sym (offer-user m s)) (rw y (offer-IsFaithful (log s.user_id) m s h.0))),
      published-All e d m subs h.1,
    )
    | inr n ↦ (rw n (rw n h.0), published-All e d m subs h.1)
  ]

step-AllFaithful :
    (e : Env) (log : ℕ → List Message) (h : Hub) (s : Step)
    → AllFaithful log h
    → AllFaithful (λ u. logged e s u (log u)) (step e h s)
unfolding AllFaithful IsFaithful step logged subscribe cancel deliver publish
step-AllFaithful e log h (subscribe_step user_id) all =
    ((omega arith, nothing-IsSublist (log user_id)), all)
step-AllFaithful e log h (cancel_step channel) all = cancelled-All log channel h.subscribers all
step-AllFaithful e log h (deliver_step channel) all = delivered-All log channel h.subscribers all
step-AllFaithful e log h (publish_step d m) all = published-All log e d m h.subscribers all

run-AllFaithful :
    (e : Env) (log : ℕ → List Message) (h : Hub) (steps : List Step)
    → AllFaithful log h
    → AllFaithful (λ u. addressed e steps u (log u)) (run e h steps)
unfolding run addressed
run-AllFaithful e log h [] all = all
run-AllFaithful e log h (s ∷ steps) all =
    run-AllFaithful e (λ u. logged e s u (log u)) (step e h s) steps
      (step-AllFaithful e log h s all)

-- Whatever the interleaving of subscriptions, cancellations, publications and deliveries, from an
-- empty hub on: no channel holds more than 16 messages, and what a client was sent, followed by what
-- waits for it, is part of the messages that were addressed to its user, in their order, none twice
-- and none of another user.
pub run-streams :
    (e : Env) (steps : List Step)
    → AllFaithful
        (λ u. addressed e steps u [])
        (run e (record { next = 0; subscribers = [] }) steps)
unfolding AllFaithful
run-streams e steps = run-AllFaithful e (λ u. []) (record { next = 0; subscribers = [] }) steps tt
