-- ===== src/Users/Bootstrap.antt =====
-- internal/auth/bootstrap.go: the users that a start of the program makes.
use servicedesk.Common.{
  refl, ◌==◌, ◌≢◌, any, Bool-cases, ◌≢◌, map_if, str_eq, Bool, String, List, [], ◌∷◌, ◌++◌, ◌≡◌,
  ◌∙◌, sym, ap, subst, inl, inr,
}
use servicedesk.Models.Roles.{Role, system_admin, User}
use servicedesk.Auth.Claims.{system_actor_id}
use servicedesk.Store.{Result, ok, err, M, carry_on, IsTable, Result-cases, carry_on-ok}
use servicedesk.Ticket.Desk.{Env, Desk}
use servicedesk.Users.{get_by_username, get_by_id, create_user, new_user, upsert_static, role_of}

-- `HashPassword`, and what `randomToken` returned.
pub record Passwords : Type 0 where
  pub hash_password : String → Result String
  pub random_token : String

-- A user that a call did not find is created with a hashed password.
create_missing : Env → Result User → Result String → (String → User) → M Desk (Unit {0})
unfolding create_user
create_missing e (ok u) hash made d = (d, ok tt)
create_missing e (err x) (ok h) made d = create_user e (made h) d
create_missing e (err x) (err y) made d = (d, err y)

unfoldable pub static_users : Env → Passwords → List (String × String × String) → M Desk (Unit {0})
unfolding upsert_static role_of
static_users e p [] d = (d, ok tt)
static_users e p ((username, password, role) ∷ entries) d = elim (p.hash_password password) [
  | err x ↦ (d, err x)
  | ok hash ↦
      carry_on (upsert_static e username hash (role_of role) d) (λ _. static_users e p entries)
]

-- The account that is made where no static user is configured.
default_admin : Env → Passwords → List (String × String × String) → M Desk (Unit {0})
unfolding create_missing get_by_username new_user
default_admin e p (x ∷ entries) d = (d, ok tt)
default_admin e p [] d =
    create_missing e (get_by_username e "admin" d) (p.hash_password "admin123")
      (λ h. new_user "admin" "admin@example.com" h system_admin "db") d

-- The entries are `cfg.StaticUserEntries()`.
unfoldable pub bootstrap : Env → Passwords → List (String × String × String) → M Desk (Unit {0})
unfolding create_missing static_users default_admin get_by_id new_user
bootstrap e p entries d =
    carry_on
      (create_missing e (get_by_id e system_actor_id d) (p.hash_password p.random_token)
        (λ h. new_user "system" "" h system_admin "system") d)
      (λ _ d. carry_on (static_users e p entries d) (λ _. default_admin e p entries))

-- The first row is the system user.
pub StartsWithSystem : List User → Type 0
StartsWithSystem rows =
    (u : User) × (rest : List User) × (rows ≡ u ∷ rest)
    × (u.id ≡ system_actor_id)
    × (u.username ≡ "system")

module _ (e : Env) (lawful : IsTable (λ u. u.id) (λ i u. record u { id = i }) e.users_table) where
  keeps_append :
      (rows : List User) (x : User) → StartsWithSystem rows → StartsWithSystem (rows ++ x ∷ [])
  unfolding StartsWithSystem
  keeps_append rows x (u, rest, e, i, n) = (u, rest ++ x ∷ [], ap (λ r. r ++ x ∷ []) e, i, n)

  keeps_create :
      (x : User) (d d' : Desk)
      → create_user e x d ≡ (d', ok tt)
      → StartsWithSystem d.users
      → StartsWithSystem d'.users
  unfolding create_user
  keeps_create x d d' h s = elim (Result-cases (e.users_table.create x d.users)) [
    | inr (y, f) ↦ absurd (cc (rw (f, create_user) at h))
    | inl ((x', rows), f) ↦
        let (i, made, grown, free) = lawful.create_ok x x' d.users rows f in
        let h' = rw (f, create_user) at h in
        subst StartsWithSystem (sym grown ∙ ap (λ r. r.0.users) h') (keeps_append d.users x' s)
  ]

  keeps_upsert :
      (username hash : String) (role : Role) (d d' : Desk)
      → upsert_static e username hash role d ≡ (d', ok tt)
      → StartsWithSystem d.users
      → StartsWithSystem d'.users
  unfolding upsert_static new_user StartsWithSystem
  keeps_upsert username hash role d d' h s =
      elim (Result-cases (e.users_table.upsert same refreshed added d.users)) [
        | inr (y, f) ↦ absurd (cc (rw (f, upsert_static) at h))
        | inl (rows, f) ↦
            let stored : rows ≡ d'.users = ap (λ r. r.0.users) (rw (f, upsert_static) at h) in
            subst StartsWithSystem stored (elim (Bool-cases (any same d.users)) [
              | inl y ↦
                  keeps_refresh rows s
                    (lawful.upsert_conflict same refreshed added d.users rows y f)
              | inr n ↦
                  let (i, grown) = lawful.upsert_new same refreshed added d.users rows n f in
                  subst StartsWithSystem (sym grown)
                    (keeps_append d.users (record added { id = i }) s)
            ])
      ]
    where
      same : User → Bool
      same u = str_eq u.username username

      refreshed : User → User
      refreshed u = record u { password_hash = hash; role = role; source = "static" }

      added : User
      added = new_user username "" hash role "static"

      keeps_refresh :
          (rows : List User)
          → StartsWithSystem d.users
          → rows ≡ map_if same refreshed d.users
          → StartsWithSystem rows
      keeps_refresh rows (u, rest, e, i, n) r = elim (Bool-cases (same u)) [
        | inl y ↦ (
          refreshed u,
          map_if same refreshed rest,
          r ∙ ap (map_if same refreshed) e ∙ rw y refl,
          i,
          n,
        )
        | inr z ↦
            (u, map_if same refreshed rest, r ∙ ap (map_if same refreshed) e ∙ rw z refl, i, n)
      ]

  keeps_missing :
      (r : Result User) (hash : Result String) (made : String → User) (d d' : Desk)
      → create_missing e r hash made d ≡ (d', ok tt)
      → StartsWithSystem d.users
      → StartsWithSystem d'.users
  unfolding create_missing
  keeps_missing (ok u) hash made d d' h s = subst StartsWithSystem (ap (λ r. r.0.users) h) s
  keeps_missing (err x) (ok k) made d d' h s = keeps_create (made k) d d' h s
  keeps_missing (err x) (err y) made d d' h s = absurd (cc)

  keeps_static :
      (p : Passwords) (entries : List (String × String × String)) (d d' : Desk)
      → static_users e p entries d ≡ (d', ok tt)
      → StartsWithSystem d.users
      → StartsWithSystem d'.users
  unfolding static_users
  keeps_static p [] d d' h s = subst StartsWithSystem (ap (λ r. r.0.users) h) s
  keeps_static p ((n, w, role) ∷ entries) d d' h s = elim (Result-cases (p.hash_password w)) [
    | inr (x, f) ↦ absurd (cc (rw (f, static_users) at h))
    | inl (hash, f) ↦
        let chain = rw (f, static_users) at h in
        let (c, done, first, others) =
          carry_on-ok (upsert_static e n hash (role_of role) d) (λ _. static_users e p entries) d'
            tt chain in
        keeps_static p entries c d' others (keeps_upsert n hash (role_of role) d c first s)
  ]

  keeps_default :
      (p : Passwords) (entries : List (String × String × String)) (d d' : Desk)
      → default_admin e p entries d ≡ (d', ok tt)
      → StartsWithSystem d.users
      → StartsWithSystem d'.users
  unfolding default_admin
  keeps_default p [] d d' h s =
      keeps_missing (get_by_username e "admin" d) (p.hash_password "admin123")
        (λ k. new_user "admin" "admin@example.com" k system_admin "db") d d' h s
  keeps_default p (x ∷ entries) d d' h s = subst StartsWithSystem (ap (λ r. r.0.users) h) s

  missing : (d : Desk) → d.users ≡ [] → (u : User) → get_by_id e system_actor_id d ≢ ok u
  unfolding get_by_id
  missing d fresh u h =
      let empty = rw fresh at h in
      absurd (cc (lawful.first_ok (λ x. x.id == system_actor_id) [] u empty))

  first_made :
      (first_id : (r r' : User) (after : List User)
        → e.users_table.create r [] ≡ ok (r', after)
        → r'.id ≡ 1)
      (r : Result User) (hash : Result String) (d c : Desk)
      → d.users ≡ []
      → ((u : User) → r ≢ ok u)
      → create_missing e r hash (λ k. new_user "system" "" k system_admin "system") d ≡ (c, ok tt)
      → StartsWithSystem c.users
  unfolding create_missing create_user StartsWithSystem new_user
  first_made first_id (ok u) hash d c fresh gone h = absurd (gone u refl)
  first_made first_id (err x) (err y) d c fresh gone h = absurd (cc)
  first_made first_id (err x) (ok k) d c fresh gone h =
      let made : User = new_user "system" "" k system_admin "system" in
      elim (Result-cases (e.users_table.create made d.users)) [
        | inr (y, f) ↦ absurd (cc (rw (f, create_user) at h))
        | inl ((x', rows), f) ↦
            let (i, numbered, grown, free) = lawful.create_ok made x' d.users rows f in
            let stored : rows ≡ c.users = ap (λ r. r.0.users) (rw (f, create_user) at h) in
            (
              x',
              [],
              sym stored ∙ grown ∙ ap (λ r. r ++ x' ∷ []) fresh,
              first_id made x' rows (rw fresh at f),
              ap (λ u. u.username) numbered,
            )
      ]

  -- On an empty table of users whose first row gets the id 1, a start of the program that succeeds
  -- leaves the system user in the first row, under the id 1 that automation signs with: no static
  -- user and no default account takes it, and none renames it.
  pub bootstrap-StartsWithSystem :
      (first_id : (r r' : User) (after : List User)
        → e.users_table.create r [] ≡ ok (r', after)
        → r'.id ≡ 1)
      (p : Passwords) (entries : List (String × String × String)) (d d' : Desk)
      → d.users ≡ []
      → bootstrap e p entries d ≡ (d', ok tt)
      → StartsWithSystem d'.users
  unfolding bootstrap
  bootstrap-StartsWithSystem first_id p entries d d' fresh h =
      let made : String → User = λ k. new_user "system" "" k system_admin "system" in
      let hash : Result String = p.hash_password p.random_token in
      let (c, _, first, others) =
        carry_on-ok (create_missing e (get_by_id e system_actor_id d) hash made d)
          (λ _ d. carry_on (static_users e p entries d) (λ _. default_admin e p entries)) d' tt h in
      let (c', _, static, last) =
        carry_on-ok (static_users e p entries c) (λ _. default_admin e p entries) d' tt others in
      keeps_default p entries c' d' last (
        keeps_static p entries c c' static (
          first_made first_id (get_by_id e system_actor_id d) hash d c fresh (missing d fresh)
            first))
