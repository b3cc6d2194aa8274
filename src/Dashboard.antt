-- ===== src/Dashboard.antt =====
-- internal/httpapi/manager_handlers.go: what the manager's dashboard and activity list compute of the
-- tickets. Averages are kept as a sum and a count; the comparison of a load with the average is taken
-- exactly, where the source divides in floating point. Drawing and the pages are left out.
pub mod Counts
pub mod Detection
pub mod Loads
use servicedesk.Common.{
  ℕ, suc, ◌+◌, ◌-◌, ◌*◌, String, Bool, true, false, Option, none, some, List, [], ◌∷◌, ◌&&◌, ◌||◌,
  not, if◌then◌else◌, ◌==◌, ltb, leb, map, keep_if, map_if, length, find_last,
}
use servicedesk.Models.Roles.{User, is_agent}
use servicedesk.Models.Tickets.{Ticket, Queue, Note, is_closed, is_new, is_in_progress}
use servicedesk.Notes.{Latest, read}

pub record QueueStat : Type 0 where
  pub queue_id : ℕ
  pub name : String
  pub open_count : ℕ
  pub breaching : ℕ

-- `t.SLADueAt != nil && now.After(*t.SLADueAt)`
abbrev pub past_due : ℕ → Ticket → Bool
past_due now t = elim t.sla_due_at [ none ↦ false | some due ↦ ltb due now ]

unfoldable pub count_in : ℕ → Ticket → QueueStat → QueueStat
count_in now t s = record s {
  open_count = suc s.open_count;
  breaching = if past_due now t then suc s.breaching else s.breaching;
}

-- The loop over the tickets; the entry of a queue is the one with its id.
unfoldable pub count_all : ℕ → List Ticket → List QueueStat → List QueueStat
unfolding count_in
count_all now [] stats = stats
count_all now (t ∷ tickets) stats = count_all now tickets (
    if is_closed t.status
    then stats
    else map_if (λ s. s.queue_id == t.queue_id) (count_in now t) stats)

unfoldable pub empty_stat : Queue → QueueStat
empty_stat q = record { queue_id = q.id; name = q.name; open_count = 0; breaching = 0 }

unfoldable pub queue_stats : ℕ → List Ticket → List Queue → List QueueStat
unfolding count_all empty_stat
queue_stats now tickets queues = count_all now tickets (map empty_stat queues)

-- A Go map from users to numbers: a missing key reads 0.
unfoldable pub load_of : ℕ → List (ℕ × ℕ) → ℕ
load_of k [] = 0
load_of k ((j, n) ∷ m) = if j == k then n else load_of k m

unfoldable pub increment : ℕ → List (ℕ × ℕ) → List (ℕ × ℕ)
increment k [] = (k, 1) ∷ []
increment k ((j, n) ∷ m) = if j == k then (j, suc n) ∷ m else (j, n) ∷ increment k m

abbrev pub is_active : Ticket → Bool
is_active t = is_new t.status || is_in_progress t.status

unfoldable pub add_load : Ticket → Option ℕ → List (ℕ × ℕ) → List (ℕ × ℕ)
unfolding increment
add_load t none m = m
add_load t (some id) m = if not (is_active t) then m else increment id m

unfoldable pub loads : List Ticket → List (ℕ × ℕ) → List (ℕ × ℕ)
unfolding add_load
loads [] m = m
loads (t ∷ tickets) m = loads tickets (add_load t t.assignee_id m)

unfoldable pub total_load : List (ℕ × ℕ) → List User → ℕ
unfolding load_of
total_load m [] = 0
total_load m (u ∷ staff) = load_of u.id m + total_load m staff

pub record EngineerLoad : Type 0 where
  pub user_id : ℕ
  pub username : String
  pub load : ℕ
  pub overloaded : Bool

-- `l > total / n + 1`
unfoldable pub is_overloaded : ℕ → ℕ → ℕ → Bool
is_overloaded l total n = ltb (total + n) (l * n)

unfoldable pub engineer_load : List (ℕ × ℕ) → ℕ → ℕ → User → EngineerLoad
unfolding load_of is_overloaded
engineer_load m total n u = record {
  user_id = u.id;
  username = u.username;
  load = load_of u.id m;
  overloaded = is_overloaded (load_of u.id m) total n;
}

unfoldable pub staff_of : List User → List User
staff_of users = keep_if (λ u. is_agent u.role) users

unfoldable pub engineer_loads : List Ticket → List User → List EngineerLoad
unfolding loads total_load engineer_load staff_of
engineer_loads tickets users =
    let m = loads tickets [] in
    let staff = staff_of users in map (engineer_load m (total_load m staff) (length staff)) staff

-- A `time.Duration`, which may be negative.
pub data ℤ : Type 0 where
  pos : ℕ → ℤ
  negsuc : ℕ → ℤ

-- `a.Sub(b)`
unfoldable pub sub : ℕ → ℕ → ℤ
sub a b = if leb b a then pos (a - b) else negsuc (b - a - 1)

between : Option ℕ → Option ℕ → Option ℤ
unfolding sub
between none b = none
between (some a) none = none
between (some a) (some b) = some (sub a b)

first_some : Option ℤ → Option ℤ → Option ℤ
first_some none o = o
first_some (some d) o = some d

-- The four deltas of a ticket, absent where a stage was not reached.
pub record Deltas : Type 0 where
  pub mttd : Option ℤ
  pub mtta : Option ℤ
  pub mttm : Option ℤ
  pub mttr : Option ℤ

unfoldable pub ticket_mttx : Ticket → Deltas
unfolding between first_some
ticket_mttx t = record {
  mttd = between t.detected_at (some t.created_at);
  mtta = between t.acked_at t.detected_at;
  mttm = between t.mitigated_at t.acked_at;
  mttr = first_some (between t.resolved_at t.mitigated_at) (between t.resolved_at t.acked_at);
}

pub record DurationAvg : Type 0 where
  pub sum : ℕ
  pub count : ℕ

abbrev pub no_samples : DurationAvg
no_samples = record { sum = 0; count = 0 }

-- `add`, which drops a negative sample; nothing is added where there is none.
unfoldable pub add_sample : DurationAvg → Option ℤ → DurationAvg
add_sample a none = a
add_sample a (some (pos n)) = record { sum = a.sum + n; count = suc a.count }
add_sample a (some (negsuc n)) = a

-- The mean, formatted by a function of the sum and the count.
unfoldable pub label : (ℕ → ℕ → String) → DurationAvg → String
label human a = if a.count == 0 then "-" else human a.sum a.count

pub record MttxAverages : Type 0 where
  pub mttd : DurationAvg
  pub mtta : DurationAvg
  pub mttm : DurationAvg
  pub mttr : DurationAvg

unfoldable pub add_ticket : MttxAverages → Ticket → MttxAverages
unfolding ticket_mttx add_sample
add_ticket a t = record {
  mttd = add_sample a.mttd (ticket_mttx t).mttd;
  mtta = add_sample a.mtta (ticket_mttx t).mtta;
  mttm = add_sample a.mttm (ticket_mttx t).mttm;
  mttr = add_sample a.mttr (ticket_mttx t).mttr;
}

unfoldable pub averages : List Ticket → MttxAverages → MttxAverages
unfolding add_ticket
averages [] a = a
averages (t ∷ tickets) a = averages tickets (add_ticket a t)

pub record MttxSummary : Type 0 where
  pub mttd : String
  pub mtta : String
  pub mttm : String
  pub mttr : String

unfoldable pub no_averages : MttxAverages
no_averages = record { mttd = no_samples; mtta = no_samples; mttm = no_samples; mttr = no_samples }

unfoldable pub compute_mttx : (ℕ → ℕ → String) → List Ticket → MttxSummary
unfolding averages no_averages label
compute_mttx human tickets =
    let a = averages tickets no_averages in
    record {
      mttd = label human a.mttd;
      mtta = label human a.mtta;
      mttm = label human a.mttm;
      mttr = label human a.mttr;
    }
