-- ===== src/Summary/Merging.antt =====
-- The merge of the locked fields into a fresh reply, and the list of the locked fields.
use servicedesk.Common.{
  String, Bool, true, false, ◌≡◌, ◌≢◌, inl, inr, some, List, [], ◌∷◌, ◌++◌, arith, str_eq, eq_iff,
  str_eq_refl, str_eq_ne, get_key, get_key-set_key, get_key_other, find_last, Option-cases, ◌∙◌,
  Bool-cases, if◌then◌else◌, sym,
}
use servicedesk.Models.Knowledge.{TicketAiSnapshot}
use servicedesk.Summary.{Fields, merge_locked, keep_value, contains, remove_string}

keep_value-hit :
    (k v j : String) (prev fresh : Fields)
    → get_key k prev ≡ some v
    → j ≡ k
    → get_key k (keep_value (get_key j prev) j fresh) ≡ some v
unfolding keep_value
keep_value-hit k v j prev fresh h same = rw (same, h) (get_key-set_key k v fresh)

keep_value-stays :
    (k v j : String) (prev fresh : Fields)
    → get_key k prev ≡ some v
    → get_key k fresh ≡ some v
    → get_key k (keep_value (get_key j prev) j fresh) ≡ some v
unfolding keep_value
keep_value-stays k v j prev fresh h g = elim (Bool-cases (str_eq j k)) [
  | inl y ↦ keep_value-hit k v j prev fresh h ((eq_iff j k).0 y)
  | inr n ↦ elim (Option-cases (get_key j prev)) [
    | inl e ↦ rw e g
    | inr (w, e) ↦
        rw e (get_key_other k j w fresh (λ q. absurd (differ (sym n ∙ (eq_iff j k).1 q))) ∙ g)
  ]
]
  where
    differ : false ≡ true → ⊥
    differ q = cc

merge_locked-stays :
    (k v : String) (locked : List String) (prev fresh : Fields)
    → get_key k prev ≡ some v
    → get_key k fresh ≡ some v
    → get_key k (merge_locked locked prev fresh) ≡ some v
unfolding merge_locked
merge_locked-stays k v [] prev fresh h g = g
merge_locked-stays k v (j ∷ locked) prev fresh h g =
    merge_locked-stays k v locked prev (keep_value (get_key j prev) j fresh) h
      (keep_value-stays k v j prev fresh h g)

pub merge_locked-keeps :
    (k v : String) (locked : List String) (prev fresh : Fields)
    → get_key k prev ≡ some v
    → contains locked k ≡ true
    → get_key k (merge_locked locked prev fresh) ≡ some v
unfolding merge_locked
merge_locked-keeps k v [] prev fresh h c = absurd (cc)
merge_locked-keeps k v (j ∷ locked) prev fresh h c = elim (Bool-cases (str_eq j k)) [
  | inl y ↦
      merge_locked-stays k v locked prev (keep_value (get_key j prev) j fresh) h
        (keep_value-hit k v j prev fresh h ((eq_iff j k).0 y))
  | inr n ↦ merge_locked-keeps k v locked prev (keep_value (get_key j prev) j fresh) h (rw n at c)
]

pub find_last-append_one :
    (p : TicketAiSnapshot → Bool) (rows : List TicketAiSnapshot) (s : TicketAiSnapshot)
    → p s ≡ true
    → find_last p (rows ++ s ∷ []) ≡ some s
find_last-append_one p [] s h = rw h
find_last-append_one p (x ∷ rows) s h = rw (find_last-append_one p rows s h)

contains-append : (locked : List String) (k : String) → contains (locked ++ k ∷ []) k ≡ true
contains-append [] k = rw (str_eq_refl k)
contains-append (j ∷ locked) k = ground (arith, contains-append locked k)

contains-append_other :
    (locked : List String) (j k : String)
    → contains locked k ≡ true
    → contains (locked ++ j ∷ []) k ≡ true
contains-append_other [] j k h = absurd (cc)
contains-append_other (i ∷ locked) j k h = elim (Bool-cases (str_eq i k)) [
  | inl y ↦ rw y
  | inr n ↦ rw n (contains-append_other locked j k (rw n at h))
]

pub contains-remove_string :
    (locked : List String) (j k : String)
    → j ≢ k
    → contains locked k ≡ true
    → contains (remove_string locked j) k ≡ true
contains-remove_string [] j k d h = absurd (cc)
contains-remove_string (i ∷ locked) j k d h = elim (Bool-cases (str_eq i k)) [
  | inl y ↦
      let differs : str_eq i j ≡ false = str_eq_ne i j (λ e. d (sym e ∙ (eq_iff i k).0 y)) in
      rw (differs, y)
  | inr n ↦
      let rest = contains-remove_string locked j k d (rw n at h) in
      elim (Bool-cases (str_eq i j)) [ inl z ↦ rw z rest | inr z ↦ rw (z, n) rest ]
]

pub contains-added :
    (locked : List String) (j k : String)
    → contains locked k ≡ true
    → contains (if contains locked j then locked else locked ++ j ∷ []) k ≡ true
contains-added locked j k h = elim (Bool-cases (contains locked j)) [
  | inl y ↦ rw y h
  | inr n ↦ rw n (contains-append_other locked j k h)
]

-- The edit itself locks the field.
pub contains-edited :
    (locked : List String) (k : String)
    → contains (if contains locked k then locked else locked ++ k ∷ []) k ≡ true
contains-edited locked k = elim (Bool-cases (contains locked k)) [
  | inl y ↦ rw (y, y)
  | inr n ↦ rw n (contains-append locked k)
]
