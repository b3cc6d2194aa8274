-- ===== src/StageBar.antt =====
-- internal/httpapi/stagebar.go: the progress bar of a ticket. A label is its wording with the time
-- that it counts from; the duration text of `humanDuration` is not rendered.
pub mod Rejection
use servicedesk.Common.{
  ℕ, String, Bool, true, false, Option, none, some, List, [], ◌∷◌, ◌&&◌, not, is_some,
  if◌then◌else◌,
}
use servicedesk.Models.Tickets.{Ticket, is_closed}

pub data StageLabel : Type 0 where
  no_label : StageLabel
  resolved_ago : ℕ → StageLabel
  fix_in_place mitigated_ago : ℕ → StageLabel
  being_looked_at since_ack : ℕ → StageLabel
  submitted_ago waiting_for_ack : ℕ → StageLabel

pub record StageBarData : Type 0 where
  pub applicable : Bool
  pub stages : List String
  pub current_idx : ℕ
  pub closed : Bool
  pub stage_label : StageLabel
  pub reopen_count : ℕ

abbrev pub stage_names : List String
stage_names = "Detect" ∷ "Ack" ∷ "Mitigate" ∷ "Resolve" ∷ []

abbrev pub plain_stage_names : List String
plain_stage_names = "Submitted" ∷ "In progress" ∷ "Fixing" ∷ "Resolved" ∷ []

detected_or_created : Option ℕ → ℕ → ℕ
detected_or_created none created_at = created_at
detected_or_created (some t) created_at = t

-- The `switch`: the latest of the milestones that is set.
stage : Option ℕ → Option ℕ → Option ℕ → ℕ → Bool → ℕ × StageLabel
stage (some t) mitigated_at acked_at since plain = (3, resolved_ago t)
stage none (some t) acked_at since plain = (2, if plain then fix_in_place t else mitigated_ago t)
stage none none (some t) since plain = (1, if plain then being_looked_at t else since_ack t)
stage none none none since plain = (0, if plain then submitted_ago since else waiting_for_ack since)

unfoldable pub stage_progress : Ticket → Bool → StageBarData
unfolding detected_or_created stage
stage_progress t plain =
    let (idx, label) =
      stage t.resolved_at t.mitigated_at t.acked_at (detected_or_created t.detected_at t.created_at)
        plain in
    if is_closed t.status && not (is_some t.resolved_at)
    then record {
      applicable = false;
      stages = [];
      current_idx = 0;
      closed = false;
      stage_label = no_label;
      reopen_count = 0;
    }
    else record {
      applicable = true;
      stages = if plain then plain_stage_names else stage_names;
      current_idx = idx;
      closed = is_closed t.status;
      stage_label = label;
      reopen_count = t.reopen_count;
    }
