-- ===== src/Knowledge/Curation.antt =====
-- Requests on the knowledge base (internal/service/kb.go), and the articles that it publishes.
use servicedesk.Common.{
  ℕ, Bool, true, ◌≡◌, refl, inl, inr, Option, none, some, List, [], ◌∷◌, arith, All, not, is_some,
  ◌==◌, subst, sym, ◌∙◌, Bool-cases, keep_if,
}
use servicedesk.Models.Tickets.{Ticket}
use servicedesk.Models.Knowledge.{KbArticle, is_draft, is_published}
use servicedesk.Store.{
  Result, ok, err, M, pure, ◌>>◌, Result-cases, IsTable, All-saved, All-append_one, All-found,
  carry_on,
}
use servicedesk.Knowledge.{
  Env, Base, KbArticleUpdate, touched, edited, approved, create_article, update_article,
  get_article, link_service, unlink_service, unlink_unwanted, link_missing, set_services,
  set_if_given, propose_from_ticket, update, approve, delete, wants, drafted, link_if_some,
}

-- A published article names who approved it and when.
pub record IsCurated (a : KbArticle) : Type 0 where
  pub has_approver : is_published a.status ≡ true → is_some a.approved_by_id ≡ true
  pub has_time : is_published a.status ≡ true → is_some a.published_at ≡ true

abbrev pub ArticlesTable : Env → Type 0
ArticlesTable e = IsTable (λ (a : KbArticle). a.id) (λ i a. record a { id = i }) e.articles_table

abbrev pub AllCurated : Base → Type 0
AllCurated b = All IsCurated b.articles

link_service-articles :
    (e : Env) (a s : ℕ) (b : Base) → (link_service e a s b).0.articles ≡ b.articles
unfolding link_service
link_service-articles e a s b = ground arith

unlink_service-articles :
    (e : Env) (a s : ℕ) (b : Base) → (unlink_service e a s b).0.articles ≡ b.articles
unfolding unlink_service
unlink_service-articles e a s b = ground arith

-- Two calls that leave the articles as they are.
then-articles :
    {A B : Type 0} (r : Base × Result A) (f : A → M Base B) (rows : List KbArticle)
    → r.0.articles ≡ rows
    → ((x : A) (b : Base) → (f x b).0.articles ≡ b.articles)
    → (carry_on r f).0.articles ≡ rows
then-articles (b, ok x) f rows h k = k x b ∙ h
then-articles (b, err x) f rows h k = h

unlink_unwanted-articles :
    (e : Env) (id : ℕ) (want existing : List ℕ) (b : Base)
    → (unlink_unwanted e id want existing b).0.articles ≡ b.articles
unfolding unlink_unwanted
unlink_unwanted-articles e id want [] b = refl
unlink_unwanted-articles e id want (have ∷ existing) b = elim (Bool-cases (wants want have)) [
  | inl y ↦ rw y (unlink_unwanted-articles e id want existing b)
  | inr n ↦ rw n (
      then-articles (unlink_service e id have b) (λ _. unlink_unwanted e id want existing)
        b.articles (unlink_service-articles e id have b)
        (λ _. unlink_unwanted-articles e id want existing))
]

link_missing-articles :
    (e : Env) (id : ℕ) (existing ids : List ℕ) (b : Base)
    → (link_missing e id existing ids b).0.articles ≡ b.articles
unfolding link_missing
link_missing-articles e id existing [] b = refl
link_missing-articles e id existing (want ∷ ids) b = elim (Bool-cases (wants existing want)) [
  | inl y ↦ rw y (link_missing-articles e id existing ids b)
  | inr n ↦ rw n (
      then-articles (link_service e id want b) (λ _. link_missing e id existing ids) b.articles
        (link_service-articles e id want b) (λ _. link_missing-articles e id existing ids))
]

set_services-articles :
    (e : Env) (id : ℕ) (ids : List ℕ) (b : Base) → (set_services e id ids b).0.articles ≡ b.articles
unfolding set_services
set_services-articles e id ids b = elim (Result-cases (e.services_for_article id b.links)) [
  | inr (x, h) ↦ rw (h, set_services) refl
  | inl (existing, h) ↦
      rw (h, set_services)
        (then-articles (unlink_unwanted e id ids existing b) (λ _. link_missing e id existing ids)
          b.articles (unlink_unwanted-articles e id ids existing b)
          (λ _. link_missing-articles e id existing ids))
]

set_if_given-articles :
    (e : Env) (id : ℕ) (o : Option (List ℕ)) (b : Base)
    → (set_if_given e id o b).0.articles ≡ b.articles
set_if_given-articles e id none b = refl
set_if_given-articles e id (some ids) b = set_services-articles e id ids b

link_if_some-articles :
    (e : Env) (id : ℕ) (o : Option ℕ) (b : Base) → (link_if_some e id o b).0.articles ≡ b.articles
link_if_some-articles e id none b = refl
link_if_some-articles e id (some s) b = link_service-articles e id s b

proposal-IsCurated :
    (e : Env) (now id : ℕ) (t : Ticket) (b : Base) → IsCurated (drafted e now id t b)
unfolding drafted
proposal-IsCurated e now id t b = ground arith

touched-IsCurated : (now : ℕ) (a : KbArticle) → IsCurated a → IsCurated (touched now a)
touched-IsCurated now a h = record { has_approver = h.has_approver; has_time = h.has_time }

edited-IsCurated : (a : KbArticle) (i : KbArticleUpdate) → IsCurated a → IsCurated (edited a i)
unfolding edited
edited-IsCurated a i h = record { has_approver = h.has_approver; has_time = h.has_time }

approved-IsCurated : (now actor id : ℕ) (a : KbArticle) → IsCurated (approved now actor a)
unfolding approved
approved-IsCurated now actor id a = ground arith

with_id-IsCurated : (i : ℕ) (a : KbArticle) → IsCurated a → IsCurated (record a { id = i })
with_id-IsCurated i a h = record { has_approver = h.has_approver; has_time = h.has_time }

All-keep_if :
    {A : Type 0} (P : A → Type 0) (p : A → Bool) (rows : List A)
    → All P rows
    → All P (keep_if p rows)
All-keep_if P p [] h = tt
All-keep_if P p (x ∷ rows) h = elim (Bool-cases (p x)) [
  | inl y ↦ rw y (h.0, All-keep_if P p rows h.1)
  | inr n ↦ rw n (All-keep_if P p rows h.1)
]

-- A request on the knowledge base.
pub data BaseRequest : Type 0 where
  propose_request : ℕ → BaseRequest
  update_request : ℕ → KbArticleUpdate → BaseRequest
  approve_request : ℕ → ℕ → BaseRequest
  delete_request : ℕ → BaseRequest

pub serve : Env → Base → ℕ × BaseRequest → Base
serve e b (now, propose_request ticket_id) = (propose_from_ticket e now ticket_id b).0
serve e b (now, update_request id i) = (update e now id i b).0
serve e b (now, approve_request actor id) = (approve e now actor id b).0
serve e b (now, delete_request id) = (delete e id b).0

pub serve_all : Env → Base → List (ℕ × BaseRequest) → Base
serve_all e b [] = b
serve_all e b (r ∷ rs) = serve_all e (serve e b r) rs

module _ (e : Env) (laws : ArticlesTable e) (b : Base) (h : AllCurated b) where
  saved-AllCurated :
      (now : ℕ) (a : KbArticle)
      → IsCurated (touched now a)
      → AllCurated (update_article e now a b).0
  unfolding update_article
  saved-AllCurated now a c =
      elim (Result-cases (e.articles_table.save (touched now a) b.articles)) [
        | inr (x, q) ↦ rw (q, update_article) h
        | inl (rows, q) ↦
            rw (q, update_article)
              (subst (All IsCurated) (sym (laws.save_ok (touched now a) b.articles rows q))
                (All-saved IsCurated (λ x. x.id) (touched now a) b.articles c h))
      ]

  created-AllCurated : (a : KbArticle) → IsCurated a → AllCurated (create_article e a b).0
  unfolding create_article
  created-AllCurated a c = elim (Result-cases (e.articles_table.create a b.articles)) [
    | inr (x, q) ↦ rw (q, create_article) h
    | inl ((a', rows), q) ↦
        let (n, made, after, fresh) = laws.create_ok a a' b.articles rows q in
        rw (q, create_article)
          (subst (All IsCurated) (sym after) (
            All-append_one IsCurated a' b.articles
              (subst IsCurated (sym made) (with_id-IsCurated n a c)) h))
  ]

  found-IsCurated :
      (id : ℕ) (a : KbArticle)
      → e.articles_table.first (λ x. x.id == id) b.articles ≡ ok a
      → IsCurated a
  found-IsCurated id a q =
      All-found IsCurated (λ x. x.id == id) a b.articles h
        (laws.first_ok (λ x. x.id == id) b.articles a q)

  kept :
      {A B : Type 0} (r : Base × Result A) (f : A → M Base B)
      → ((x : A) (c : Base) → (f x c).0.articles ≡ c.articles)
      → AllCurated r.0
      → AllCurated (carry_on r f).0
  kept r f k c = subst (All IsCurated) (sym (then-articles r f r.0.articles refl k)) c

  propose-AllCurated : (now id : ℕ) → AllCurated (propose_from_ticket e now id b).0
  unfolding propose_from_ticket
  propose-AllCurated now id =
      elim (Result-cases (e.tickets_table.first (λ t. t.id == id) b.tickets)) [
        | inr (x, q) ↦ rw (q, propose_from_ticket) h
        | inl (t, q) ↦
            rw (q, propose_from_ticket)
              (kept (create_article e (drafted e now id t b) b)
                (λ a. link_if_some e a.id t.service_id >> pure a)
                (λ a c.
                  then-articles (link_if_some e a.id t.service_id c) (λ _. pure a) c.articles
                    (link_if_some-articles e a.id t.service_id c) (λ _ _. refl))
                (created-AllCurated (drafted e now id t b) (proposal-IsCurated e now id t b)))
      ]

  update-AllCurated : (now id : ℕ) (i : KbArticleUpdate) → AllCurated (update e now id i b).0
  unfolding update get_article
  update-AllCurated now id i =
      elim (Result-cases (e.articles_table.first (λ a. a.id == id) b.articles)) [
        | inr (x, q) ↦ rw (q, update) h
        | inl (a, q) ↦
            rw (q, update)
              (kept (update_article e now (edited a i) b)
                (λ _. set_if_given e a.id i.service_ids >> pure (touched now (edited a i)))
                (λ _ c.
                  then-articles (set_if_given e a.id i.service_ids c)
                    (λ _. pure (touched now (edited a i))) c.articles
                    (set_if_given-articles e a.id i.service_ids c) (λ _ _. refl))
                (saved-AllCurated now (edited a i) (
                  touched-IsCurated now (edited a i)
                    (edited-IsCurated a i (found-IsCurated id a q)))))
      ]

  approve-AllCurated : (now actor id : ℕ) → AllCurated (approve e now actor id b).0
  unfolding approve get_article
  approve-AllCurated now actor id =
      elim (Result-cases (e.articles_table.first (λ a. a.id == id) b.articles)) [
        | inr (x, q) ↦ rw (q, approve) h
        | inl (a, q) ↦ elim (Bool-cases (not (is_draft a.status))) [
          | inl y ↦ rw (q, y, approve) h
          | inr n ↦
              rw (q, n, approve)
                (kept (update_article e now (approved now actor a) b)
                  (λ _. pure (touched now (approved now actor a))) (λ _ _. refl)
                  (saved-AllCurated now (approved now actor a) (
                    touched-IsCurated now (approved now actor a)
                      (approved-IsCurated now actor id a))))
        ]
      ]

  delete-AllCurated : (id : ℕ) → AllCurated (delete e id b).0
  unfolding delete
  delete-AllCurated id =
      elim (Result-cases (e.articles_table.delete (λ a. a.id == id) b.articles)) [
        | inr (x, q) ↦ rw (q, delete) h
        | inl (rows, q) ↦
            rw (q, delete)
              (subst (All IsCurated) (sym (laws.delete_ok (λ a. a.id == id) b.articles rows q))
                (All-keep_if IsCurated (λ a. not (a.id == id)) b.articles h))
      ]

serve-AllCurated :
    (e : Env)
    → ArticlesTable e
    → (b : Base) (r : ℕ × BaseRequest) → AllCurated b
    → AllCurated (serve e b r)
unfolding serve
serve-AllCurated e laws b (now, propose_request id) h = propose-AllCurated e laws b h now id
serve-AllCurated e laws b (now, update_request id i) h = update-AllCurated e laws b h now id i
serve-AllCurated e laws b (now, approve_request actor id) h =
    approve-AllCurated e laws b h now actor id
serve-AllCurated e laws b (now, delete_request id) h = delete-AllCurated e laws b h id

-- Nothing is published without approval: from a base in which every published article names who
-- approved it and when, every sequence of proposals, edits, approvals and deletions, failing ones
-- included, leaves such a base.
pub serve_all-AllCurated :
    (e : Env)
    → ArticlesTable e
    → (b : Base) (rs : List (ℕ × BaseRequest)) → AllCurated b
    → AllCurated (serve_all e b rs)
unfolding serve_all
serve_all-AllCurated e laws b [] h = h
serve_all-AllCurated e laws b (r ∷ rs) h =
    serve_all-AllCurated e laws (serve e b r) rs (serve-AllCurated e laws b r h)
