-- ===== src/Dashboard/Loads.antt =====
-- The loads of the staff: the loop against counting, and the threshold.
use servicedesk.Common.{
  ◌⊎◌, ◌||◌, ltb→lt, ℕ, suc, ◌+◌, ◌*◌, ◌≤◌, ◌<◌, Bool, true, false, ◌&&◌, not, Option, none, some,
  List, [], ◌∷◌, ◌≡◌, refl, ◌∙◌, ap, inl, inr, arith, map, count_if, length, All, ◌==◌, points_to,
  if◌then◌else◌, Bool-cases, ltb, any,
}
use servicedesk.Models.Roles.{User}
use servicedesk.Models.Tickets.{Ticket}
use servicedesk.Dashboard.{
  is_active, load_of, increment, add_load, loads, total_load, is_overloaded, EngineerLoad,
  engineer_load, staff_of, engineer_loads,
}

-- The active tickets that are assigned to a user.
abbrev pub is_carried_by : ℕ → Ticket → Bool
is_carried_by id t = is_active t && points_to t.assignee_id id

load_of-increment :
    (k j : ℕ) (m : List (ℕ × ℕ))
    → load_of k (increment j m) ≡ (if j == k then suc (load_of k m) else load_of k m)
unfolding load_of increment
load_of-increment k j [] = refl
load_of-increment k j ((i, n) ∷ m) = ground (arith, load_of-increment k j m)

load_of-add_load :
    (k : ℕ) (t : Ticket) (o : Option ℕ) (m : List (ℕ × ℕ))
    → load_of k (add_load t o m) ≡ (if is_active t && points_to o k then 1 else 0) + load_of k m
unfolding add_load
load_of-add_load k t none m = elim (Bool-cases (is_active t)) [
  | inl y ↦ rw y (omega arith)
  | inr n ↦ rw n (omega arith)
]
load_of-add_load k t (some id) m = elim (Bool-cases (is_active t)) [
  | inl y ↦ rw (y, load_of-increment k id m, add_load) (ground arith)
  | inr n ↦ rw (n, add_load) (omega arith)
]

load_of-loads :
    (k : ℕ) (tickets : List Ticket) (m : List (ℕ × ℕ))
    → load_of k (loads tickets m) ≡ count_if (is_carried_by k) tickets + load_of k m
unfolding loads
load_of-loads k [] m = omega arith
load_of-loads k (t ∷ tickets) m = omega (
  arith,
  load_of-loads k tickets (add_load t t.assignee_id m),
  load_of-add_load k t t.assignee_id m,
)

-- The loads of the staff together.
unfoldable pub carried : List Ticket → List User → ℕ
carried tickets [] = 0
carried tickets (u ∷ staff) = count_if (is_carried_by u.id) tickets + carried tickets staff

none_yet : (k : ℕ) → load_of k [] ≡ 0
unfolding load_of
none_yet k = refl

total_load_lem :
    (tickets : List Ticket) (staff : List User)
    → total_load (loads tickets []) staff ≡ carried tickets staff
unfolding total_load carried
total_load_lem tickets [] = refl
total_load_lem tickets (u ∷ staff) =
    omega (arith, total_load_lem tickets staff, load_of-loads u.id tickets [], none_yet u.id)

module _ (m : List (ℕ × ℕ)) (c n : ℕ) where
  -- If every load is above a bound, their sum is above as many bounds.
  total_load-above :
      (staff : List User)
      → All (λ u. c < load_of u.id m * n) staff
      → length staff * suc c ≤ total_load m staff * n
  unfolding total_load
  total_load-above [] h = omega arith
  total_load-above (u ∷ staff) h = omega (arith, h.0, total_load-above staff h.1)

  above :
      (staff : List User)
      → any (λ u. not (ltb c (load_of u.id m * n))) staff ≡ false
      → All (λ u. c < load_of u.id m * n) staff
  above [] h = tt
  above (u ∷ staff) h = elim (Bool-cases (ltb c (load_of u.id m * n))) [
    | inl y ↦ (ltb→lt c (load_of u.id m * n) y, above staff (rw y at h))
    | inr k ↦ absurd (cc (rw k at h))
  ]

someone :
    (m : List (ℕ × ℕ)) (u : User) (staff : List User)
    → any
        (λ v. not (
          ltb
            (total_load m (u ∷ staff) + length (u ∷ staff))
            (load_of v.id m * length (u ∷ staff))))
        (u ∷ staff)
      ≡ true
someone m u staff =
    let n : ℕ = length (u ∷ staff) in
    let c : ℕ = total_load m (u ∷ staff) + n in
    elim (Bool-cases (any (λ v. not (ltb c (load_of v.id m * n))) (u ∷ staff))) [
      | inl y ↦ y
      | inr k ↦ absurd (
          too_many (total_load m (u ∷ staff)) (length staff)
            (total_load-above m c n (u ∷ staff) (above m c n (u ∷ staff) k)))
    ]
  where
    too_many : (total k : ℕ) → suc k * suc (total + suc k) ≤ total * suc k → ⊥
    too_many total k h = omega (arith, h)

-- The load list of the dashboard names the staff in the order of the users, each with the number of
-- active tickets that are assigned to them, flagged where it is more than one above the average of
-- the staff (both sides times the number of the staff); and where there is staff, somebody is not
-- flagged.
pub engineer_loads-counts :
    (tickets : List Ticket) (users : List User)
    → (engineer_loads tickets users
        ≡ map
            (λ u. record {
              user_id = u.id;
              username = u.username;
              load = count_if (is_carried_by u.id) tickets;
              overloaded =
                  ltb
                    (carried tickets (staff_of users) + length (staff_of users))
                    (count_if (is_carried_by u.id) tickets * length (staff_of users));
            })
            (staff_of users))
      × ((staff_of users ≡ [])
          ⊎ (any (λ (l : EngineerLoad). not l.overloaded) (engineer_loads tickets users) ≡ true))
unfolding engineer_loads engineer_load is_overloaded
engineer_loads-counts tickets users =
    (each (length (staff_of users)) (staff_of users) (staff_of users), flagged (staff_of users))
  where
    m : List (ℕ × ℕ)
    m = loads tickets []

    counted : (u : User) → load_of u.id m ≡ count_if (is_carried_by u.id) tickets
    counted u = load_of-loads u.id tickets [] ∙ omega (arith, none_yet u.id)

    each :
        (n : ℕ) (staff all : List User)
        → map (engineer_load m (total_load m all) n) staff
          ≡ map
              (λ u. record {
                user_id = u.id;
                username = u.username;
                load = count_if (is_carried_by u.id) tickets;
                overloaded =
                    is_overloaded (count_if (is_carried_by u.id) tickets) (carried tickets all) n;
              })
              staff
    each n [] all = refl
    each n (u ∷ staff) all = cc (counted u, total_load_lem tickets all, each n staff all)

    flagged_one :
        (staff all : List User) (n : ℕ)
        → any
            (λ (l : EngineerLoad). not l.overloaded)
            (map (engineer_load m (total_load m all) n) staff)
          ≡ any (λ v. not (ltb (total_load m all + n) (load_of v.id m * n))) staff
    flagged_one [] all n = refl
    flagged_one (u ∷ staff) all n =
        ap (λ b. not (ltb (total_load m all + n) (load_of u.id m * n)) || b)
          (flagged_one staff all n)

    flagged :
        (staff : List User)
        → (staff ≡ [])
          ⊎ (any
                (λ (l : EngineerLoad). not l.overloaded)
                (map (engineer_load m (total_load m staff) (length staff)) staff)
              ≡ true)
    flagged [] = inl refl
    flagged (u ∷ staff) =
        inr (flagged_one (u ∷ staff) (u ∷ staff) (length (u ∷ staff)) ∙ someone m u staff)
