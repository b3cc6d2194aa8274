-- ===== src/Ticket/Lifecycle/Mitigation.antt =====
-- `MarkMitigated`: the ticket that is stored, and the tickets that are refused.
use servicedesk.Common.{
  ◌∙◌, sym, str_eq, subst, ◌≢◌, ℕ, String, true, false, ◌≡◌, refl, some, List, ◌++◌, arith,
  Bool-cases, inl, inr,
}
use servicedesk.Models.Tickets.{status_discrete, Note, in_progress, Ticket, is_in_progress}
use servicedesk.Auth.Claims.{Claims}
use servicedesk.Store.{pure, ◌>>◌, carry_on, M, Error, forbidden, Result, ok, err, Result-cases}
use servicedesk.Ticket.Desk.{
  trigger, ticket_payload, fan_out, Env, Desk, Call, mttm, get_ticket, ignore, call,
  mitigated_details,
}
use servicedesk.Ticket.Desk.Effects.{entry, appended, log_event_lem, fan_out_lem}
use servicedesk.Ticket.Lifecycle.{is_agent_role, mark_mitigated, post_note}
use servicedesk.Ticket.Lifecycle.Success.{
  call_if_lem, since_calls, observe_since_lem, update_ticket_lem,
}
use servicedesk.Ticket.Lifecycle.Failure.{get_cases, update_failed}

module _ (e : Env) (now : ℕ) (actor : Claims) (id : ℕ) where
  note_row : String → Note
  note_row body = record {
    id = 0;
    ticket_id = id;
    author_id = actor.user_id;
    body = body;
    internal = false;
    created_at = now;
  }

  post_note-tickets :
      (d : Desk) (body : String)
      → ((post_note e now actor id body d).0.tickets ≡ d.tickets)
        × ((post_note e now actor id body d).1 ≡ ok tt)
  unfolding post_note call note_row
  post_note-tickets d body = elim (Bool-cases (str_eq body "")) [
    | inl empty ↦ (rw empty refl, rw empty refl)
    | inr full ↦ elim (Result-cases (e.notes_table.create (note_row body) d.notes)) [
      | inr (x, h) ↦ (rw (full, h) refl, rw (full, h) refl)
      | inl ((n, rows), h) ↦
          (rw (full, h, fan_out_lem, call_if_lem) refl, rw (full, h, fan_out_lem, call_if_lem) refl)
    ]
  ]

-- What `MarkMitigated` does after the note.
ending : Env → Ticket → M Desk Ticket
unfolding call
ending e t =
    fan_out e "ticket.mitigated" t.id (ticket_payload t)
    >> (call (trigger "field_updated" t.id) >> pure t)

ended :
    (e : Env) (t : Ticket) (m : Desk × Result (Unit {0}))
    → m.1 ≡ ok tt
    → ((carry_on m (λ _. ending e t)).0.tickets ≡ m.0.tickets)
      × ((carry_on m (λ _. ending e t)).1 ≡ ok t)
unfolding ending
ended e t (d, ok _) h = (rw fan_out_lem refl, rw fan_out_lem refl)
ended e t (d, err x) h = absurd (cc)

module _ (e : Env) (now : ℕ) (actor : Claims) (id : ℕ) (d : Desk) where
  mitigate_not_found :
      (x : Error) (note : String)
      → get_ticket e id d ≡ (d, err x)
      → mark_mitigated e now actor id note d ≡ (d, err x)
  unfolding mark_mitigated
  mitigate_not_found x note h = rw h

  pub mitigate_refused :
      (t : Ticket) (note : String)
      → get_ticket e id d ≡ (d, ok t)
      → t.status ≢ in_progress
      → mark_mitigated e now actor id note d ≡ (d, err forbidden)
  unfolding mark_mitigated
  mitigate_refused t note h k =
      let out : is_in_progress t.status ≡ false = ground arith in rw (h, out)

  mitigate_unwritten :
      (t : Ticket) (x : Error) (note : String)
      → get_ticket e id d ≡ (d, ok t)
      → t.status ≡ in_progress
      → e.tickets_table.save (record t { mitigated_at = some now; updated_at = now }) d.tickets
        ≡ err x
      → mark_mitigated e now actor id note d
        ≡ (record d { calls = d.calls ++ since_calls mttm t.acked_at now }, err x)
  unfolding mark_mitigated ignore
  mitigate_unwritten t x note h k w =
      let inside : is_in_progress t.status ≡ true = ground arith in
      rw
        (
          h,
          inside,
          observe_since_lem mttm t.acked_at now d,
          update_failed e now (record t { mitigated_at = some now })
              (record d { calls = d.calls ++ since_calls mttm t.acked_at now }) x w,
        )
        refl

  noted : Ticket → List Ticket → Desk
  noted t rows = record d {
    tickets = rows;
    events =
        appended e
          (entry now t.id actor "ticket_mitigated" (mitigated_details (is_agent_role actor.role)))
          d.events;
    calls = d.calls ++ since_calls mttm t.acked_at now;
  }

  mitigate_written :
      (t : Ticket) (rows : List Ticket) (note : String)
      → get_ticket e id d ≡ (d, ok t)
      → t.status ≡ in_progress
      → e.tickets_table.save (record t { mitigated_at = some now; updated_at = now }) d.tickets
        ≡ ok rows
      → mark_mitigated e now actor id note d
        ≡ carry_on
            (post_note e now actor id note (noted t rows))
            (λ _. ending e (record t { mitigated_at = some now; updated_at = now }))
  unfolding mark_mitigated ignore noted ending
  mitigate_written t rows note h k w =
      let inside : is_in_progress t.status ≡ true = ground arith in
      rw
        (
          h,
          inside,
          observe_since_lem mttm t.acked_at now d,
          update_ticket_lem e now (record t { mitigated_at = some now })
              (record d { calls = d.calls ++ since_calls mttm t.acked_at now }) rows w,
          log_event_lem,
        )
        refl

  -- The ways in which a mitigation ends.
  pub data Mitigation : Desk × Result Ticket → Type 0 where
    not_mitigated : (calls : List Call) (x : Error) → Mitigation (record d { calls = calls }, err x)
    mitigated :
        (t : Ticket) (d' : Desk)
        → get_ticket e id d ≡ (d, ok t)
        → t.status ≡ in_progress
        → e.tickets_table.save (record t { mitigated_at = some now; updated_at = now }) d.tickets
          ≡ ok d'.tickets
        → Mitigation (d', ok (record t { mitigated_at = some now; updated_at = now }))

  written :
      (t : Ticket) (rows : List Ticket) (note : String)
      → get_ticket e id d ≡ (d, ok t)
      → t.status ≡ in_progress
      → e.tickets_table.save (record t { mitigated_at = some now; updated_at = now }) d.tickets
        ≡ ok rows
      → Mitigation (mark_mitigated e now actor id note d)
  unfolding noted
  written t rows note h k w =
      let t' : Ticket = record t { mitigated_at = some now; updated_at = now } in
      let m = post_note e now actor id note (noted t rows) in
      let kept = post_note-tickets e now actor id (noted t rows) note in
      let (stored, returned) = ended e t' m kept.1 in
      let d' : Desk = (carry_on m (λ _. ending e t')).0 in
      let whole : carry_on m (λ _. ending e t') ≡ (d', ok t') = λ j. (d', returned j) in
      subst Mitigation (sym (mitigate_written t rows note h k w ∙ whole))
        (mitigated t d' h k (rw (stored ∙ kept.0) w))

  -- Every mitigation ends in one of two ways. It fails, and no table differs; or the ticket that was
  -- read was in progress, the row with the time of the mitigation was written, and that row is
  -- returned.
  pub mark_mitigated-Mitigation :
      (note : String) → Mitigation (mark_mitigated e now actor id note d)
  mark_mitigated-Mitigation note = elim (get_cases e id d) [
    | inr (x, h) ↦ rw (mitigate_not_found x note h) (not_mitigated d.calls x)
    | inl (t, h) ↦ elim (status_discrete t.status in_progress) [
      | no k ↦ rw (mitigate_refused t note h k) (not_mitigated d.calls forbidden)
      | yes k ↦
          elim (Result-cases (
            e.tickets_table.save (record t { mitigated_at = some now; updated_at = now })
              d.tickets)) [
                | inr (x, w) ↦ rw (mitigate_unwritten t x note h k w) (not_mitigated _ x)
                | inl (rows, w) ↦ written t rows note h k w
              ]
    ]
  ]
