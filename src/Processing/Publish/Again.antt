-- ===== src/Processing/Publish/Again.antt =====
-- Rows whose facts are there already: publishing them inserts nothing.
use pharma_intel.Base.{
  ℕ, ◌≡◌, refl, false, List, [], ◌∷◌, arith, All, ok, length, count, sym, Option-cases, inl, inr,
  length-append,
}
use mathlib.Core.Path.{subst}
use pharma_intel.Base.Text.{Text}
use pharma_intel.Processing.Issues.{IssueCollector}
use pharma_intel.Processing.Checks.{World}
use pharma_intel.Processing.Facts.{StagedRow, fact_of}
use pharma_intel.Processing.Publish.{
  Store, Linked, is_new, is_linked, is_conflict, bulk_create, to_insert, link_rows,
  link_or_insert_chunk, publish_chunks, batched, publish_rows, joined,
}
use pharma_intel.Processing.Publish.Insertion.{IsFresh, add_conflicts-same}
use pharma_intel.Processing.Publish.Known.{IsKnown}
use pharma_intel.Processing.Publish.Whole.{flat, All-split, batched-flat}

module _ (world : World) (source : Text) (created_by : ℕ) (store : Store) where
  known-counts :
      (rows : List StagedRow)
      → All (IsKnown source store.facts) rows
      → (to_insert source created_by store.facts rows ≡ [])
        × (count (is_linked source store.facts) rows ≡ length rows)
        × All (λ r. is_conflict source store.facts r ≡ false) rows
  unfolding to_insert is_linked is_conflict is_new
  known-counts [] a = (refl, refl, tt)
  known-counts (row ∷ rows) a =
      let (p, q, r) = known-counts rows a.1 in
      elim (Option-cases (fact_of source row.source_record_id store.facts)) [
        | inl e ↦ absurd (ground (arith, e, a.0))
        | inr (f, e) ↦
            (ground (arith, e, p), ground (arith, e, a.0, q), (ground (arith, e, a.0), r))
      ]

  -- What such a publication returns.
  abbrev pub Reuses : List StagedRow → Linked → Type 0
  Reuses rows out = (out.store ≡ store) × (out.inserted ≡ 0) × (out.reused ≡ length rows)

  chunk_again :
      (rows : List StagedRow) (c : IssueCollector)
      → IsFresh c
      → All (IsKnown source store.facts) rows
      → (out : Linked) × (link_or_insert_chunk world source created_by rows store c ≡ ok (out, c))
        × Reuses rows out
  unfolding link_or_insert_chunk bulk_create
  chunk_again rows c f a =
      let (p, q, r) = known-counts rows a in
      let quiet = add_conflicts-same source store.facts rows c r in
      (
        record {
          store = store;
          rows = link_rows source store.facts store.next_id rows;
          inserted = 0;
          reused = length rows;
        },
        ground (arith, quiet, f.none_counted, p, q),
        (refl, refl, refl),
      )

  publish_chunks_again :
      (chunks : List (List StagedRow)) (c : IssueCollector)
      → IsFresh c
      → All (IsKnown source store.facts) (flat chunks)
      → (out : Linked) × (publish_chunks world source created_by chunks store c ≡ ok (out, c))
        × Reuses (flat chunks) out
  unfolding publish_chunks flat
  publish_chunks_again [] c f a =
      (record { store = store; rows = []; inserted = 0; reused = 0 }, refl, (refl, refl, refl))
  publish_chunks_again (rows ∷ chunks) c f a =
      let (a₁, a₂) = All-split _ rows (flat chunks) a in
      let (one, k, (s, m, n)) = chunk_again rows c f a₁ in
      let (two, l, (t, i, j)) = publish_chunks_again chunks c f a₂ in
      (
        (joined one (two, c)).0,
        rw (k, s, l) refl,
        (t, omega (arith, m, i), omega (arith, n, j, length-append rows (flat chunks))),
      )

  pub publish_rows_again :
      (size : ℕ) (rows : List StagedRow) (c : IssueCollector)
      → IsFresh c
      → All (IsKnown source store.facts) rows
      → (out : Linked) × (publish_rows world source created_by size rows store c ≡ ok (out, c))
        × Reuses rows out
  unfolding publish_rows
  publish_rows_again size rows c f a =
      let e = batched-flat size rows in
      let (out, k, u) =
        publish_chunks_again (batched size rows) c f
          (subst (All (IsKnown source store.facts)) (sym e) a) in
      (out, ground (arith, k, f.none_counted), subst (λ rs. Reuses rs out) e u)
