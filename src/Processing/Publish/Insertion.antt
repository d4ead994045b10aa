-- ===== src/Processing/Publish/Insertion.antt =====
-- What one chunk of rows does to the facts, where it is not refused.
use pharma_intel.Base.{
  ℕ, ◌+◌, ◌≤◌, ◌<◌, ◌≡◌, refl, false, List, [], ◌∷◌, ltb, arith, length, count, All, ok, Bool-cases,
  Option-cases, inl, inr, >>=-eq-ok, raise_if,
}
use pharma_intel.Base.Text.{Text}
use pharma_intel.Processing.Issues.{IssueCollector, Report, add}
use pharma_intel.Processing.Checks.{World}
use pharma_intel.Processing.Facts.{StagedRow, Fact, fact_of}
use pharma_intel.Processing.Publish.{
  Store, rejected, is_new, is_linked, is_conflict, conflict_report, add_conflicts, bulk_create,
  to_insert, link_rows, Linked, link_or_insert_chunk,
}

-- A collector that has counted nothing.
pub record IsFresh (c : IssueCollector) : Type 0 where
  pub none_counted : c.total ≡ 0
  pub none_pending : c.pending_identities ≡ []

pub add_le : (r : Report) (c : IssueCollector) → c.total ≤ (add r c).total
unfolding add
add_le r c = ground arith

pub add-counts : (r : Report) (c : IssueCollector) → c.pending_identities ≡ [] → 0 < (add r c).total
unfolding add
add-counts r c e = ground (arith, e)

module _ (source : Text) (facts : List Fact) where
  add_conflicts_le :
      (rows : List StagedRow) (c : IssueCollector)
      → c.total ≤ (add_conflicts source facts rows c).total
  unfolding add_conflicts
  add_conflicts_le [] c = omega arith
  add_conflicts_le (row ∷ rows) c = elim (Bool-cases (is_conflict source facts row)) [
    | inl e ↦
        rw (e, add_conflicts)
          (omega (
            arith,
            add_conflicts_le rows (add (conflict_report row) c),
            add_le (conflict_report row) c,
          ))
    | inr e ↦ rw (e, add_conflicts) (add_conflicts_le rows c)
  ]

  -- If nothing is counted, no row conflicts and the collector stays as it was.
  pub add_conflicts-none :
      (rows : List StagedRow) (c : IssueCollector)
      → IsFresh c
      → (add_conflicts source facts rows c).total ≡ 0
      → All (λ row. is_conflict source facts row ≡ false) rows
        × (add_conflicts source facts rows c ≡ c)
  unfolding add_conflicts
  add_conflicts-none [] c f z = (tt, refl)
  add_conflicts-none (row ∷ rows) c f z = elim (Bool-cases (is_conflict source facts row)) [
    | inl e ↦ absurd (
        omega (
          arith,
          rw (e, add_conflicts) at z,
          add_conflicts_le rows (add (conflict_report row) c),
          add-counts (conflict_report row) c f.none_pending,
        ))
    | inr e ↦
        let (a, same) = add_conflicts-none rows c f (rw (e, add_conflicts) at z) in
        ((e, a), rw (e, add_conflicts) same)
  ]

  -- Rows without a conflict leave the collector as it was.
  pub add_conflicts-same :
      (rows : List StagedRow) (c : IssueCollector)
      → All (λ row. is_conflict source facts row ≡ false) rows
      → add_conflicts source facts rows c ≡ c
  unfolding add_conflicts
  add_conflicts-same [] c a = refl
  add_conflicts-same (row ∷ rows) c (e, a) = rw (e, add_conflicts) (add_conflicts-same rows c a)

  -- Each row without a conflict is inserted or reused.
  pub to_insert-length :
      (created_by : ℕ) (rows : List StagedRow)
      → All (λ row. is_conflict source facts row ≡ false) rows
      → length (to_insert source created_by facts rows) + count (is_linked source facts) rows
        ≡ length rows
  unfolding to_insert is_conflict is_linked is_new
  to_insert-length created_by [] a = refl
  to_insert-length created_by (row ∷ rows) a =
      elim (Option-cases (fact_of source row.source_record_id facts)) [
        | inl e ↦ ground (arith, e, to_insert-length created_by rows a.1)
        | inr (f, e) ↦ ground (arith, e, a.0, to_insert-length created_by rows a.1)
      ]

-- What a chunk that is not refused has done.
pub record Chunk (world : World) (source : Text) (created_by : ℕ) (rows : List StagedRow)
    (store : Store) (out : Linked) : Type 0 where
  pub no_conflict : All (λ row. is_conflict source store.facts row ≡ false) rows
  pub created :
      bulk_create world (to_insert source created_by store.facts rows) store ≡ ok out.store
  pub linked : out.rows ≡ link_rows source store.facts store.next_id rows
  pub inserted_all : out.inserted ≡ length (to_insert source created_by store.facts rows)
  pub every_row : out.inserted + out.reused ≡ length rows

pub link_or_insert_chunk-Chunk :
    (world : World) (source : Text) (created_by : ℕ) (rows : List StagedRow) (store : Store)
    (c c' : IssueCollector) (out : Linked)
    → IsFresh c
    → link_or_insert_chunk world source created_by rows store c ≡ ok (out, c')
    → (c' ≡ c) × Chunk world source created_by rows store out
unfolding link_or_insert_chunk
link_or_insert_chunk-Chunk world source created_by rows store c c' out f h =
    let d = add_conflicts source store.facts rows c in
    let (_, g, h₁) = >>=-eq-ok (raise_if (ltb 0 d.total) (rejected d)) _ h in
    let (a, same) = add_conflicts-none source store.facts rows c f (ground (arith, g)) in
    let new = to_insert source created_by store.facts rows in
    let (s, b, h₂) = >>=-eq-ok (bulk_create world new store) _ h₁ in
    let n = to_insert-length source store.facts created_by rows a in
    (
      ground (arith, h₂, same),
      record {
        no_conflict = a;
        created = ground (arith, b, h₂);
        linked = ground (arith, h₂);
        inserted_all = ground (arith, h₂);
        every_row = ground (arith, h₂, n);
      },
    )
