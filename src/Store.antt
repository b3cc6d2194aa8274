-- ===== src/Store.antt =====
-- The database behind internal/repo: gorm is not part of the repository, so a table is an interface,
-- with the operations that internal/repo calls on it and the laws that gorm documents for them.
-- The content of a table is the list of its rows in the order of the primary key.
pub mod Memory
use servicedesk.Common.{
  inr, arith, inl, ℕ, ◌+◌, String, Bool, true, false, ◌≡◌, refl, ◌⊎◌, Option, none, some, List, [],
  ◌∷◌, ◌++◌, find_first, find_last, keep_if, map_if, count_if, any, not, All, subst, Bool-cases,
  ◌==◌, if◌then◌else◌,
}
use servicedesk.Models.Tickets.{TicketStatus, Action}

-- The errors of the program's own code; `failure` is any other, with its text.
pub data Error : Type 0 where
  record_not_found forbidden not_draft not_in_sudo_session : Error
  attachment_too_large attachment_type_not_allowed : Error
  invalid_transition : TicketStatus → Action → Error
  failure : String → Error

pub data Result {ℓ} (A : Type ℓ) : Type ℓ where
  ok : A → Result A
  err : Error → Result A

pub ok-injective {ℓ} : {A : Type ℓ} {a b : A} → ok a ≡ ok b → a ≡ b
ok-injective e = cc

pub Result-cases {ℓ} :
    {A : Type ℓ} (r : Result A) → ((a : A) × (r ≡ ok a)) ⊎ ((e : Error) × (r ≡ err e))
Result-cases (ok a) = inl (a, refl)
Result-cases (err e) = inr (e, refl)

-- A service call on a state: the new state, which an error keeps as far as the call came, and the
-- result.
abbrev pub M : Type 0 → Type 0 → Type 0
M S A = S → S × Result A

abbrev pub pure : {S A : Type 0} → A → M S A
pure a s = (s, ok a)

abbrev pub fail : {S A : Type 0} → Error → M S A
fail e s = (s, err e)

abbrev pub carry_on : {S A B : Type 0} → S × Result A → (A → M S B) → S × Result B
carry_on (s, ok a) f = f a s
carry_on (s, err e) f = (s, err e)

pub Step-cases :
    {S A : Type 0} (x : S × Result A)
    → ((s : S) × (a : A) × (x ≡ (s, ok a))) ⊎ ((s : S) × (e : Error) × (x ≡ (s, err e)))
Step-cases (s, ok a) = inl (s, a, refl)
Step-cases (s, err e) = inr (s, e, refl)

-- Both steps of a chain that returns have returned.
pub carry_on-ok :
    {S A B : Type 0} (x : S × Result A) (f : A → M S B) (s' : S) (b : B)
    → carry_on x f ≡ (s', ok b)
    → (s : S) × (a : A) × (x ≡ (s, ok a)) × (f a s ≡ (s', ok b))
carry_on-ok (s, ok a) f s' b h = (s, a, refl, h)
carry_on-ok (s, err e) f s' b h = absurd (cc)

infixl 5 ◌>>=◌ ◌>>◌
abbrev pub ◌>>=◌ : {S A B : Type 0} → M S A → (A → M S B) → M S B
◌>>=◌ m f s = carry_on (m s) f

abbrev pub ◌>>◌ : {S B : Type 0} → M S (Unit {0}) → M S B → M S B
m >> k = m >>= λ _. k

-- An early return with an error, when the test holds.
abbrev pub fail_if : {S : Type 0} → Bool → Error → M S (Unit {0})
fail_if b e s = (s, if b then err e else ok tt)

pub record Table (Row : Type 0) : Type 0 where
  pub first : (Row → Bool) → List Row → Result Row  -- Where(…).Order("id").First
  pub last : (Row → Bool) → List Row → Result Row  -- Where(…).Order("id DESC").First
  pub find : (Row → Bool) → List Row → Result (List Row)  -- Where(…).Order("id").Find
  pub count : (Row → Bool) → List Row → Result ℕ  -- Where(…).Count
  pub create : Row → List Row → Result (Row × List Row)  -- Create
  pub save : Row → List Row → Result (List Row)  -- Save
  pub update : (Row → Bool) → (Row → Row) → List Row → Result (ℕ × List Row)  -- RowsAffected
  pub delete : (Row → Bool) → List Row → Result (List Row)  -- Delete
  pub first_or_create : (Row → Bool) → Row → List Row → Result (Row × List Row)  -- FirstOrCreate
  pub upsert : (Row → Bool) → (Row → Row) → Row → List Row → Result (List Row)  -- Clauses(OnConflict)

-- What a call that returns without error has done. `Save` writes the row that has its id, and
-- inserts it if there is none.
abbrev pub saved : {Row : Type 0} → (Row → ℕ) → Row → List Row → List Row
saved id r [] = r ∷ []
saved id r (x ∷ xs) = if id x == id r then r ∷ xs else x ∷ saved id r xs

pub record IsTable {Row : Type 0} (id : Row → ℕ) (with_id : ℕ → Row → Row) (t : Table Row)
    : Type 0 where
  pub first_ok :
      (p : Row → Bool) (rows : List Row) (r : Row)
      → t.first p rows ≡ ok r
      → find_first p rows ≡ some r
  pub first_missing :
      (p : Row → Bool) (rows : List Row)
      → t.first p rows ≡ err record_not_found
      → find_first p rows ≡ none
  pub last_ok :
      (p : Row → Bool) (rows : List Row) (r : Row)
      → t.last p rows ≡ ok r
      → find_last p rows ≡ some r
  pub find_ok :
      (p : Row → Bool) (rows found : List Row) → t.find p rows ≡ ok found → found ≡ keep_if p rows
  pub count_ok :
      (p : Row → Bool) (rows : List Row) (n : ℕ) → t.count p rows ≡ ok n → n ≡ count_if p rows
  -- The row gets an id that no row has.
  pub create_ok :
      (r r' : Row) (rows after : List Row)
      → t.create r rows ≡ ok (r', after)
      → (i : ℕ) × (r' ≡ with_id i r)
        × (after ≡ rows ++ r' ∷ [])
        × (find_first (λ x. id x == i) rows ≡ none)
  pub save_ok :
      (r : Row) (rows after : List Row) → t.save r rows ≡ ok after → after ≡ saved id r rows
  pub update_ok :
      (p : Row → Bool) (f : Row → Row) (rows : List Row) (n : ℕ) (after : List Row)
      → t.update p f rows ≡ ok (n, after)
      → (n ≡ count_if p rows) × (after ≡ map_if p f rows)
  pub delete_ok :
      (p : Row → Bool) (rows after : List Row)
      → t.delete p rows ≡ ok after
      → after ≡ keep_if (λ r. not (p r)) rows
  pub upsert_conflict :
      (p : Row → Bool) (f : Row → Row) (r : Row) (rows after : List Row)
      → any p rows ≡ true
      → t.upsert p f r rows ≡ ok after
      → after ≡ map_if p f rows
  pub upsert_new :
      (p : Row → Bool) (f : Row → Row) (r : Row) (rows after : List Row)
      → any p rows ≡ false
      → t.upsert p f r rows ≡ ok after
      → (i : ℕ) × (after ≡ rows ++ with_id i r ∷ [])

module _ {Row : Type 0} (P : Row → Type 0) where
  pub All-saved :
      (id : Row → ℕ) (r : Row) (rows : List Row) → P r → All P rows → All P (saved id r rows)
  All-saved id r [] p h = (p, tt)
  All-saved id r (x ∷ rows) p h = elim (Bool-cases (id x == id r)) [
    | inl e ↦ rw e (p, h.1)
    | inr e ↦ rw e (h.0, All-saved id r rows p h.1)
  ]

  pub All-append_one : (r : Row) (rows : List Row) → P r → All P rows → All P (rows ++ r ∷ [])
  All-append_one r [] p h = (p, tt)
  All-append_one r (x ∷ rows) p h = (h.0, All-append_one r rows p h.1)

  pub All-found :
      (b : Row → Bool) (r : Row) (rows : List Row) → All P rows → find_first b rows ≡ some r → P r
  All-found b r [] h e = absurd (cc)
  All-found b r (x ∷ rows) h e = elim (Bool-cases (b x)) [
    | inl y ↦ subst P (ground (arith, y)) h.0
    | inr n ↦ All-found b r rows h.1 (ground (arith, n))
  ]
