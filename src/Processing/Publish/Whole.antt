-- ===== src/Processing/Publish/Whole.antt =====
-- The publication of all rows of an attempt, chunk by chunk.
use pharma_intel.Base.{
  ℕ, zero, suc, ◌+◌, ◌-◌, is_some, ◌≡◌, refl, true, List, [], ◌∷◌, ◌++◌, arith, length, All, ok,
  sym, ◌∙◌, ap, >>=-eq-ok, length-append, All-append, All-map_of,
}
use mathlib.Core.Path.{subst}
use mathlib.Core.List.{append_assoc, append-nil}
use pharma_intel.Base.Text.{Text}
use pharma_intel.Processing.Issues.{IssueCollector}
use pharma_intel.Processing.Checks.{World}
use pharma_intel.Processing.Facts.{StagedRow, Fact, fact_of, is_date_of}
use pharma_intel.Processing.Publish.{
  Store, Linked, link_or_insert_chunk, joined, publish_chunks, batches_from, batched, publish_rows,
  link_rows, to_insert,
}
use pharma_intel.Processing.Publish.Insertion.{IsFresh, Chunk, link_or_insert_chunk-Chunk}
use pharma_intel.Processing.Publish.Ledger.{
  ledger, record_rows, record_rows-append, record_rows-same, record_rows-nil, bulk_create-ledger,
}
use pharma_intel.Processing.Publish.Links.{
  Extends, bulk_create-Extends, IsLinkedIn, IsLinkedIn-kept, link_rows-IsLinkedIn,
}
use pharma_intel.Processing.Publish.Known.{IsKnown, IsKnown-kept, link_rows-IsKnown}

-- All the elements of some batches.
unfoldable pub flat {ℓ} : {A : Type ℓ} → List (List A) → List A
flat [] = []
flat (xs ∷ xss) = xs ++ flat xss

batches_from-flat {ℓ} :
    {A : Type ℓ} (size room : ℕ) (batch xs : List A)
    → flat (batches_from size room batch xs) ≡ batch ++ xs
unfolding batches_from flat
batches_from-flat size room [] [] = refl
batches_from-flat size room (b ∷ bs) [] = refl
batches_from-flat size zero batch (x ∷ xs) =
    ap (λ ys. batch ++ ys) (batches_from-flat size (size - 1) (x ∷ []) xs)
batches_from-flat size (suc room) batch (x ∷ xs) =
    batches_from-flat size room (batch ++ x ∷ []) xs ∙ append_assoc batch (x ∷ []) xs

-- Batches lose no element and keep the order.
pub batched-flat {ℓ} : {A : Type ℓ} (size : ℕ) (xs : List A) → flat (batched size xs) ≡ xs
unfolding batched
batched-flat size xs = batches_from-flat size size [] xs

pub All-split {ℓ κ} :
    {A : Type ℓ} (P : A → Type κ) (xs ys : List A) → All P (xs ++ ys) → All P xs × All P ys
All-split P [] ys h = (tt, h)
All-split P (x ∷ xs) ys h = let (a, b) = All-split P xs ys h.1 in ((h.0, a), b)

abbrev pub IsDated : StagedRow → Type 0
IsDated row = is_date_of row.calendar_date row.transaction_date ≡ true

-- What the publication of some rows has done, whatever the chunks were.
pub record Publication (source : Text) (created_by : ℕ) (rows : List StagedRow) (store : Store)
    (out : Linked) : Type 0 where
  pub extended : Extends out.inserted store.facts (Linked.store out).facts
  pub recorded :
      (id : Text)
      → record_rows created_by rows (ledger source store.facts) id
        ≡ ledger source ((Linked.store out).facts) id
  pub every_row : out.inserted + out.reused ≡ length rows
  pub same_length : length out.rows ≡ length rows
  pub linked : All IsDated rows → All (IsLinkedIn source ((Linked.store out).facts)) out.rows
  pub known : All IsDated rows → All (IsKnown source ((Linked.store out).facts)) rows

link_rows-length :
    (source : Text) (facts : List Fact) (next : ℕ) (rows : List StagedRow)
    → length (link_rows source facts next rows) ≡ length rows
unfolding link_rows
link_rows-length source facts next [] = refl
link_rows-length source facts next (row ∷ rows) =
    ground (
      arith,
      link_rows-length source facts next rows,
      link_rows-length source facts (suc next) rows,
    )

ledger_known :
    (source : Text) (facts : List Fact) (id : Text)
    → is_some (fact_of source id facts) ≡ true
    → is_some (ledger source facts id) ≡ true
unfolding ledger
ledger_known source facts id h = ground (arith, h)

Extends-trans : (m n : ℕ) (a b c : List Fact) → Extends m a b → Extends n b c → Extends (m + n) a c
Extends-trans m n a b c x y = record {
  added = x.added ++ y.added;
  appended = y.appended ∙ ap (λ fs. fs ++ y.added) x.appended ∙ append_assoc a x.added y.added;
  as_many = omega (arith, x.as_many, y.as_many, length-append x.added y.added);
  keeps_unique = λ u. y.keeps_unique (x.keeps_unique u);
}

-- Two publications in sequence.
joined-Publication :
    (source : Text) (created_by : ℕ) (xs ys : List StagedRow) (store : Store) (one two : Linked)
    (c : IssueCollector)
    → Publication source created_by xs store one
    → Publication source created_by ys one.store two
    → Publication source created_by (xs ++ ys) store (joined one (two, c)).0
joined-Publication source created_by xs ys store one two c p q = record {
  extended =
      Extends-trans one.inserted two.inserted store.facts (Linked.store one).facts
        (Linked.store two).facts p.extended q.extended;
  recorded = λ id.
      record_rows-append created_by xs ys (ledger source store.facts) id
      ∙ record_rows-same created_by ys (record_rows created_by xs (ledger source store.facts))
          (ledger source ((Linked.store one).facts)) p.recorded id
      ∙ q.recorded id;
  every_row = omega (arith, p.every_row, q.every_row, length-append xs ys);
  same_length =
      omega
        (arith, p.same_length, q.same_length, length-append xs ys, length-append one.rows two.rows);
  linked = λ d.
      let (d₁, d₂) = All-split IsDated xs ys d in
      let kept : All (IsLinkedIn source ((Linked.store two).facts)) one.rows =
        subst (λ fs. All (IsLinkedIn source fs) one.rows) (sym (Extends.appended q.extended))
          (All-map_of (IsLinkedIn source ((Linked.store one).facts))
            (IsLinkedIn source ((Linked.store one).facts ++ Extends.added q.extended)) one.rows
            (λ r x.
              IsLinkedIn-kept source ((Linked.store one).facts) (Extends.added q.extended) r x)
            (p.linked d₁)) in
      All-append (IsLinkedIn source ((Linked.store two).facts)) one.rows two.rows kept
        (q.linked d₂);
  known = λ d.
      let (d₁, d₂) = All-split IsDated xs ys d in
      let kept : All (IsKnown source ((Linked.store two).facts)) xs =
        subst (λ fs. All (IsKnown source fs) xs) (sym (Extends.appended q.extended))
          (All-map_of (IsKnown source ((Linked.store one).facts))
            (IsKnown source ((Linked.store one).facts ++ Extends.added q.extended)) xs
            (λ r x. IsKnown-kept source ((Linked.store one).facts) (Extends.added q.extended) r x)
            (p.known d₁)) in
      All-append (IsKnown source ((Linked.store two).facts)) xs ys kept (q.known d₂);
}

module _ (world : World) (source : Text) (created_by : ℕ) where
  Chunk-Publication :
      (rows : List StagedRow) (store : Store) (out : Linked)
      → Chunk world source created_by rows store out
      → Publication source created_by rows store out
  Chunk-Publication rows store out k = record {
    extended =
        subst (λ (n : ℕ). Extends n store.facts (Linked.store out).facts) (sym k.inserted_all)
          (bulk_create-Extends world (to_insert source created_by store.facts rows) store
            (Linked.store out) k.created);
    recorded =
        bulk_create-ledger source created_by world store.facts rows store (Linked.store out)
          (ledger source store.facts) (ledger_known source store.facts) (λ id. refl) k.created;
    every_row = k.every_row;
    same_length =
        ap (λ rs. length rs) k.linked ∙ link_rows-length source store.facts store.next_id rows;
    linked = λ d. subst (All (IsLinkedIn source ((Linked.store out).facts))) (sym k.linked) (
        link_rows-IsLinkedIn source created_by world store.facts rows store (Linked.store out)
          store.next_id refl (λ id f e. e) k.no_conflict d k.created);
    known = λ d. link_rows-IsKnown source store.facts (Linked.store out).facts store.next_id rows (
        link_rows-IsLinkedIn source created_by world store.facts rows store (Linked.store out)
          store.next_id refl (λ id f e. e) k.no_conflict d k.created);
  }

  publish_chunks-Publication :
      (chunks : List (List StagedRow)) (store : Store) (c c' : IssueCollector) (out : Linked)
      → IsFresh c
      → publish_chunks world source created_by chunks store c ≡ ok (out, c')
      → Publication source created_by (flat chunks) store out
  unfolding publish_chunks flat
  publish_chunks-Publication [] store c c' out f h =
      let none_done : record { store = store; rows = []; inserted = 0; reused = 0 } ≡ out =
        ground (arith, h) in
      subst (Publication source created_by [] store) none_done record {
        extended = record {
          added = [];
          appended = sym (append-nil store.facts);
          as_many = refl;
          keeps_unique = λ u. u;
        };
        recorded = λ id. nothing id;
        every_row = refl;
        same_length = refl;
        linked = λ d. tt;
        known = λ d. tt;
      }
    where
      nothing :
          (id : Text)
          → record_rows created_by [] (ledger source store.facts) id ≡ ledger source store.facts id
      nothing id = record_rows-nil created_by (ledger source store.facts) id
  publish_chunks-Publication (rows ∷ chunks) store c c' out f h =
      let ((one, d), a, h₁) =
        >>=-eq-ok (link_or_insert_chunk world source created_by rows store c) _ h in
      let (same, k) = link_or_insert_chunk-Chunk world source created_by rows store c d one f a in
      let ((two, e), b, h₂) =
        >>=-eq-ok (publish_chunks world source created_by chunks one.store d) _ h₁ in
      let p = Chunk-Publication rows store one k in
      let q = publish_chunks-Publication chunks one.store d e two (subst IsFresh (sym same) f) b in
      let all : (joined one (two, e)).0 ≡ out = ground (arith, h₂) in
      subst (Publication source created_by (rows ++ flat chunks) store) all
        (joined-Publication source created_by rows (flat chunks) store one two e p q)

  pub publish_rows-Publication :
      (size : ℕ) (rows : List StagedRow) (store : Store) (c c' : IssueCollector) (out : Linked)
      → IsFresh c
      → publish_rows world source created_by size rows store c ≡ ok (out, c')
      → Publication source created_by rows store out
  unfolding publish_rows
  publish_rows-Publication size rows store c c' out f h =
      let ((all, d), a, h₁) =
        >>=-eq-ok (publish_chunks world source created_by (batched size rows) store c) _ h in
      let same : all ≡ out = ground (arith, h₁) in
      subst (λ rs. Publication source created_by rs store out) (batched-flat size rows)
        (subst (Publication source created_by (flat (batched size rows)) store) same
          (publish_chunks-Publication (batched size rows) store c d all f a))
