-- ===== src/Store/Memory.antt =====
-- A table kept in memory, which meets the laws: the witnesses run the program on it.
use servicedesk.Common.{
  ap, subst, Bool-cases, true, inl, inr, ◌⊎◌, Bool, ℕ, suc, ◌≤◌, ◌≡◌, refl, Option, none, some,
  List, [], ◌∷◌, ◌++◌, find_first, find_last, any, sym, keep_if, map_if, count_if, not, ◌==◌,
  if◌then◌else◌, arith, leb,
}
use servicedesk.Store.{record_not_found, Result, ok, err, Table, IsTable, saved, ok-injective}

found : {Row : Type 0} → Option Row → Result Row
found none = err record_not_found
found (some r) = ok r

-- One more than the greatest id.
unfoldable pub next_id : {Row : Type 0} → (Row → ℕ) → List Row → ℕ
next_id id [] = 1
next_id id (r ∷ rows) = let n = next_id id rows in if leb n (id r) then suc (id r) else n

reuse :
    {Row : Type 0}
    → (Row → ℕ)
    → (ℕ → Row → Row)
    → Option Row
    → Row
    → List Row
    → Result (Row × List Row)
unfolding next_id
reuse id with_id (some x) r rows = ok (x, rows)
reuse id with_id none r rows =
    ok (with_id (next_id id rows) r, rows ++ with_id (next_id id rows) r ∷ [])

unfoldable pub memory : {Row : Type 0} → (Row → ℕ) → (ℕ → Row → Row) → Table Row
unfolding found next_id reuse
memory id with_id = record {
  first = λ p rows. found (find_first p rows);
  last = λ p rows. found (find_last p rows);
  find = λ p rows. ok (keep_if p rows);
  count = λ p rows. ok (count_if p rows);
  create = λ r rows. ok (with_id (next_id id rows) r, rows ++ with_id (next_id id rows) r ∷ []);
  save = λ r rows. ok (saved id r rows);
  update = λ p f rows. ok (count_if p rows, map_if p f rows);
  delete = λ p rows. ok (keep_if (λ r. not (p r)) rows);
  first_or_create = λ p r rows. reuse id with_id (find_first p rows) r rows;
  upsert = λ p f r rows.
      ok (if any p rows then map_if p f rows else rows ++ with_id (next_id id rows) r ∷ []);
}

found-some : {Row : Type 0} (o : Option Row) (r : Row) → found o ≡ ok r → o ≡ some r
unfolding found
found-some none r e = absurd (cc)
found-some (some x) r e = cc

found-none : {Row : Type 0} (o : Option Row) → found o ≡ err record_not_found → o ≡ none
unfolding found
found-none none e = refl
found-none (some x) e = absurd (cc)

module _ {Row : Type 0} (id : Row → ℕ) where
  above : (k : ℕ) (rows : List Row) → next_id id rows ≤ k → find_first (λ x. id x == k) rows ≡ none
  unfolding next_id
  above k [] h = refl
  above k (r ∷ rows) h = ground (arith, above k rows)

pub memory-IsTable :
    {Row : Type 0} (id : Row → ℕ) (with_id : ℕ → Row → Row) → IsTable id with_id (memory id with_id)
unfolding memory
memory-IsTable id with_id = record {
  first_ok = λ p rows r e. found-some (find_first p rows) r e;
  first_missing = λ p rows e. found-none (find_first p rows) e;
  last_ok = λ p rows r e. found-some (find_last p rows) r e;
  find_ok = λ p rows f e. cc;
  count_ok = λ p rows n e. cc;
  create_ok =
      λ r r' rows after e. (next_id id rows, cc, cc, above id (next_id id rows) rows (omega arith));
  save_ok = λ r rows after e. cc;
  update_ok = λ p f rows n after e. (cc, cc);
  delete_ok = λ p rows after e. cc;
  upsert_conflict = λ p f r rows after y e. sym (ok-injective (rw y at e));
  upsert_new = λ p f r rows after n e. (next_id id rows, sym (ok-injective (rw n at e)));
}

module _ {Row : Type 0} (id : Row → ℕ) (with_id : ℕ → Row → Row) (r r' : Row)
    (rows after : List Row) where
  reuse_adds :
      (o : Option Row)
      → reuse id with_id o r rows ≡ ok (r', after)
      → (after ≡ rows) ⊎ ((i : ℕ) × (after ≡ rows ++ with_id i r ∷ []))
  unfolding reuse
  reuse_adds none h = inr (next_id id rows, cc)
  reuse_adds (some x) h = inl (cc)

  -- FirstOrCreate adds the given row, with an id, or nothing.
  pub memory_adds :
      (p : Row → Bool)
      → (memory id with_id).first_or_create p r rows ≡ ok (r', after)
      → (after ≡ rows) ⊎ ((i : ℕ) × (after ≡ rows ++ with_id i r ∷ []))
  unfolding memory
  memory_adds p h = reuse_adds (find_first p rows) h

any-append_one :
    {Row : Type 0} (p : Row → Bool) (rows : List Row) (r : Row)
    → p r ≡ true
    → any p (rows ++ r ∷ []) ≡ true
any-append_one p [] r h = rw h refl
any-append_one p (x ∷ rows) r h = ground (arith, any-append_one p rows r h)

any-found :
    {Row : Type 0} (p : Row → Bool) (rows : List Row) (x : Row)
    → find_first p rows ≡ some x
    → any p rows ≡ true
any-found p [] x h = absurd (cc)
any-found p (y ∷ rows) x h = elim (Bool-cases (p y)) [
  | inl k ↦ rw k refl
  | inr n ↦ rw n (any-found p rows x (rw n at h))
]

-- FirstOrCreate leaves a row that the condition holds of, if it holds of the given row.
pub memory_keeps :
    {Row : Type 0} (id : Row → ℕ) (p : Row → Bool) (row r : Row) (rows after : List Row)
    → p row ≡ true
    → (memory id (λ i x. x)).first_or_create p row rows ≡ ok (r, after)
    → any p after ≡ true
unfolding memory reuse
memory_keeps {Row = Row} id p row r rows after k h = kept (find_first p rows) refl h
  where
    kept :
        (o : Option Row)
        → find_first p rows ≡ o
        → reuse id (λ i x. x) o row rows ≡ ok (r, after)
        → any p after ≡ true
    kept none e m =
        subst (λ rs. any p rs ≡ true) (ap (λ q. q.1) (ok-injective m)) (any-append_one p rows row k)
    kept (some x) e m =
        subst (λ rs. any p rs ≡ true) (ap (λ q. q.1) (ok-injective m)) (any-found p rows x e)
