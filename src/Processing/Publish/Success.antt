-- ===== src/Processing/Publish/Success.antt =====
-- When the publication of rows succeeds: on distinct identifiers without a conflict, none of which
-- another transaction has taken.
use pharma_intel.Base.{
  ℕ, suc, ◌≡◌, refl, true, false, none, List, [], ◌∷◌, ◌++◌, arith, All, All-map_of, ok, length,
  count, Option-cases, inl, inr, sym, ◌∙◌, ap,
}
use mathlib.Core.Path.{subst}
use pharma_intel.Base.Text.{Text, text_eq}
use pharma_intel.Processing.Issues.{IssueCollector}
use pharma_intel.Processing.Checks.{World, fact_checked}
use pharma_intel.Processing.Facts.{StagedRow, Fact, new_fact, fact_of, has_source, is_insertable}
use pharma_intel.Processing.Facts.Laws.{find-append}
use pharma_intel.Processing.Publish.{
  Store, Linked, is_new, is_conflict, create_fact, bulk_create, to_insert, link_or_insert_chunk,
  link_rows, is_linked, joined, publish_chunks, batched, publish_rows,
}
use pharma_intel.Processing.Publish.Insertion.{IsFresh, add_conflicts-same}
use pharma_intel.Processing.Publish.Whole.{flat, All-split, batched-flat}

-- Rows with other identifiers than `id`.
abbrev pub NotIn : Text → List StagedRow → Type 0
NotIn id rows = All (λ r. text_eq r.source_record_id id ≡ false) rows

-- No two rows have the same identifier: `sales_staged_source_id_unique`.
abbrev pub AreDistinct : List StagedRow → Type 0
AreDistinct [] = Unit
AreDistinct (row ∷ rows) =
    All (λ r. text_eq row.source_record_id r.source_record_id ≡ false) rows × AreDistinct rows

-- A row that can be published: no conflict, a fact that the database takes, and none that is not
-- seen.
pub record IsReady (world : World) (source : Text) (created_by : ℕ) (facts : List Fact)
    (row : StagedRow) : Type 0 where
  pub no_conflict : is_conflict source facts row ≡ false
  pub complete : is_insertable (new_fact source created_by 0 row) ≡ true
  pub checked : fact_checked world (new_fact source created_by 0 row) ≡ true
  pub not_taken : fact_of source row.source_record_id world.unseen ≡ none

pub All-zip {ℓ κ μ} :
    {A : Type ℓ} (P : A → Type κ) (Q : A → Type μ) (xs : List A)
    → All P xs
    → All Q xs
    → All (λ x. P x × Q x) xs
All-zip P Q [] h k = tt
All-zip P Q (x ∷ xs) h k = ((h.0, k.0), All-zip P Q xs h.1 k.1)

All-unit {ℓ} : {A : Type ℓ} (xs : List A) → All (λ x. Unit {0}) xs
All-unit [] = tt
All-unit (x ∷ xs) = (tt, All-unit xs)

AreDistinct-split :
    (xs ys : List StagedRow)
    → AreDistinct (xs ++ ys)
    → AreDistinct xs × AreDistinct ys × All (λ y. NotIn y.source_record_id xs) ys
AreDistinct-split [] ys d = (tt, d, All-unit ys)
AreDistinct-split (x ∷ xs) ys d =
    let (a, b) = All-split _ xs ys d.0 in
    let (p, q, r) = AreDistinct-split xs ys d.1 in ((a, p), q, All-zip _ _ ys b r)

bulk_create-cons :
    (world : World) (f : Fact) (fs : List Fact) (store mid : Store)
    → create_fact world f store ≡ ok mid
    → bulk_create world (f ∷ fs) store ≡ bulk_create world fs mid
unfolding bulk_create
bulk_create-cons world f fs store mid h = rw h refl

module _ (world : World) (source : Text) (created_by : ℕ) where
  -- The facts of new rows are created, and change nothing under other identifiers.
  bulk_create-ok :
      (seen : List Fact) (rows : List StagedRow) (store : Store)
      → AreDistinct rows
      → All
          (λ r.
            fact_of source r.source_record_id seen ≡ none
            → fact_of source r.source_record_id store.facts ≡ none)
          rows
      → All (IsReady world source created_by seen) rows
      → (after : Store) × (bulk_create world (to_insert source created_by seen rows) store
          ≡ ok after)
        × ((id : Text)
            → NotIn id rows
            → fact_of source id after.facts ≡ fact_of source id store.facts)
  unfolding bulk_create to_insert is_new create_fact has_source
  bulk_create-ok seen [] store d n a = (store, refl, λ id o. refl)
  bulk_create-ok seen (row ∷ rows) store d n a =
      elim (Option-cases (fact_of source row.source_record_id seen)) [
        | inr (f, e) ↦
            let (after, k, s) = bulk_create-ok seen rows store d.1 n.1 a.1 in
            (after, rw e k, λ id o. s id o.1)
        | inl e ↦
            let g = new_fact source created_by store.next_id row in
            let mid : Store = record {
              facts = store.facts ++ g ∷ [];
              next_id = suc store.next_id;
            } in
            let free : fact_of source row.source_record_id store.facts ≡ none = n.0 e in
            let r = a.0 in
            let made : create_fact world (new_fact source created_by 0 row) store ≡ ok mid =
              ground (arith, free, r.complete, r.checked, r.not_taken) in
            let other : (id : Text)
                → text_eq row.source_record_id id ≡ false
                → fact_of source id mid.facts ≡ fact_of source id store.facts =
              λ id o.
                let x = find-append (has_source source id) store.facts (g ∷ []) in
                elim (Option-cases (fact_of source id store.facts)) [
                  | inl z ↦ ground (arith, x, o, z)
                  | inr (f, z) ↦ ground (arith, x, o, z)
                ] in
            let n' =
              All-map_of _
                (λ r.
                  fact_of source r.source_record_id seen ≡ none
                  → fact_of source r.source_record_id mid.facts ≡ none)
                rows (λ r h z. other r.source_record_id h.0 ∙ h.1 z) (All-zip _ _ rows d.0 n.1) in
            let rest = to_insert source created_by seen rows in
            let all : to_insert source created_by seen (row ∷ rows)
                ≡ new_fact source created_by 0 row ∷ rest =
              ground (arith, e) in
            let (after, k, s) = bulk_create-ok seen rows mid d.1 n' a.1 in
            (
              after,
              ap (λ fs. bulk_create world fs store) all
                  ∙ bulk_create-cons world (new_fact source created_by 0 row) rest store mid made
                  ∙ k,
              λ id o. s id o.1 ∙ other id o.0,
            )
      ]

  -- A chunk of such rows is published.
  chunk-ok :
      (rows : List StagedRow) (store : Store) (c : IssueCollector)
      → IsFresh c
      → AreDistinct rows
      → All (IsReady world source created_by store.facts) rows
      → (out : Linked) × (link_or_insert_chunk world source created_by rows store c ≡ ok (out, c))
        × ((id : Text)
            → NotIn id rows
            → fact_of source id (Linked.store out).facts ≡ fact_of source id store.facts)
  unfolding link_or_insert_chunk
  chunk-ok rows store c f d a =
      let quiet = add_conflicts-same source store.facts rows c (
        All-map_of _ (λ r. is_conflict source store.facts r ≡ false) rows
          (λ r x. IsReady.no_conflict x) a) in
      let (after, k, s) =
        bulk_create-ok store.facts rows store d (All-map_of _ _ rows (λ r x z. z) a) a in
      (
        record {
          store = after;
          rows = link_rows source store.facts store.next_id rows;
          inserted = length (to_insert source created_by store.facts rows);
          reused = count (is_linked source store.facts) rows;
        },
        ground (arith, quiet, f.none_counted, k),
        s,
      )

  IsReady-later :
      (xs ys : List StagedRow) (before after : List Fact)
      → ((id : Text) → NotIn id xs → fact_of source id after ≡ fact_of source id before)
      → All (λ y. NotIn y.source_record_id xs) ys
      → All (IsReady world source created_by before) ys
      → All (IsReady world source created_by after) ys
  unfolding is_conflict
  IsReady-later xs ys before after s o a =
      All-map_of _ (IsReady world source created_by after) ys
        (λ y h. record {
          no_conflict = rw (s y.source_record_id h.0, is_conflict) (IsReady.no_conflict (h.1));
          complete = IsReady.complete (h.1);
          checked = IsReady.checked (h.1);
          not_taken = IsReady.not_taken (h.1);
        })
        (All-zip _ _ ys o a)

  publish_chunks-ok :
      (chunks : List (List StagedRow)) (store : Store) (c : IssueCollector)
      → IsFresh c
      → AreDistinct (flat chunks)
      → All (IsReady world source created_by store.facts) (flat chunks)
      → (out : Linked) × (publish_chunks world source created_by chunks store c ≡ ok (out, c))
  unfolding publish_chunks flat
  publish_chunks-ok [] store c f d a =
      (record { store = store; rows = []; inserted = 0; reused = 0 }, refl)
  publish_chunks-ok (rows ∷ chunks) store c f d a =
      let (d₁, d₂, o) = AreDistinct-split rows (flat chunks) d in
      let (a₁, a₂) = All-split _ rows (flat chunks) a in
      let (one, k, s) = chunk-ok rows store c f d₁ a₁ in
      let (two, l) =
        publish_chunks-ok chunks one.store c f d₂
          (IsReady-later rows (flat chunks) store.facts (Linked.store one).facts s o a₂) in
      ((joined one (two, c)).0, rw (k, l) refl)

  pub publish_rows-ok :
      (size : ℕ) (rows : List StagedRow) (store : Store) (c : IssueCollector)
      → IsFresh c
      → AreDistinct rows
      → All (IsReady world source created_by store.facts) rows
      → (out : Linked) × (publish_rows world source created_by size rows store c ≡ ok (out, c))
  unfolding publish_rows
  publish_rows-ok size rows store c f d a =
      let e = sym (batched-flat size rows) in
      let (out, k) =
        publish_chunks-ok (batched size rows) store c f (subst AreDistinct e d)
          (subst (All (IsReady world source created_by store.facts)) e a) in
      (out, ground (arith, k, f.none_counted))
