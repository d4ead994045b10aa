-- ===== src/Processing/Resolve/Whole.antt =====
-- The validation loop of `_publish_once` over the chunks of an attempt. Rows that it counts no issue
-- for are published by the loop that follows it.
use pharma_intel.Base.{
  ℕ, ◌+◌, ◌≤◌, ◌≡◌, refl, Bool, true, false, List, [], ◌∷◌, ◌++◌, map, arith, All, All-append, sym,
  ◌∙◌, ap,
}
use mathlib.Core.Path.{subst}
use pharma_intel.Base.Text.{Text}
use pharma_intel.Queue.Rows.{Issue}
use pharma_intel.Processing.Issues.{IssueCollector, drained}
use pharma_intel.Processing.Facts.{StagedRow, Fact}
use pharma_intel.Processing.Checks.{Territory}
use pharma_intel.Processing.Publish.Insertion.{IsFresh}
use pharma_intel.Processing.Publish.Whole.{flat, All-split}
use pharma_intel.Processing.Resolve.{Master, Found}
use pharma_intel.Processing.Resolve.Rows.{
  resolve_row, resolve_rows, resolve_chunk, Resolved, turn_then, with_references,
}
use pharma_intel.Processing.Resolve.Prefetch.{of_source, resolve_chunk-eq}
use pharma_intel.Processing.Resolve.Valid.{
  IsResolved, sought, linked-IsResolved, resolve_row_le, resolve_row-none,
}

pub record Validation : Type 0 where
  pub collector : IssueCollector
  pub rows : List StagedRow
  pub invalid_rows : ℕ
  pub stored : List Issue

-- Each chunk is resolved, and its issues are stored before the next one.
unfoldable pub validate_chunks : Text → List (List StagedRow) → Master → IssueCollector → Validation
unfolding resolve_chunk
validate_chunks source [] m c = record { collector = c; rows = []; invalid_rows = 0; stored = [] }
validate_chunks source (chunk ∷ chunks) m c =
    let r = resolve_chunk source chunk m c in
    let rest = validate_chunks source chunks m (drained r.collector) in
    record {
      collector = rest.collector;
      rows = r.rows ++ rest.rows;
      invalid_rows = r.invalid_rows + rest.invalid_rows;
      stored = (Resolved.collector r).issues ++ rest.stored;
    }

-- Rows with their references, and otherwise as they were.
abbrev pub identifiers : List StagedRow → List Text
identifiers rows = map StagedRow.source_record_id rows

-- The rows of a chunk or of an attempt after a validation that counted nothing.
pub record AllValid (source : Text) (territories : List Territory) (facts : List Fact)
    (before after : List StagedRow) : Type 0 where
  pub resolved : All (IsResolved source territories facts) after
  pub same_ids : identifiers after ≡ identifiers before
  pub kept :
      (P : StagedRow → Bool)
      → ((g : Found) (row : StagedRow) → P row ≡ true → P (with_references g row) ≡ true)
      → All (λ r. P r ≡ true) before
      → All (λ r. P r ≡ true) after

identifiers-append :
    (xs ys : List StagedRow) → identifiers (xs ++ ys) ≡ identifiers xs ++ identifiers ys
identifiers-append [] ys = refl
identifiers-append (x ∷ xs) ys = ap (λ ids. x.source_record_id ∷ ids) (identifiers-append xs ys)

turn_then-collector :
    (t : Bool × StagedRow × IssueCollector) (rest : Resolved)
    → (Resolved.collector (turn_then t rest)) ≡ rest.collector
turn_then-collector (true, row, c) rest = refl
turn_then-collector (false, row, c) rest = refl

module _ (source : Text) (m : Master) where
  -- Resolution against the tables, for short.
  abbrev resolve : List StagedRow → IssueCollector → Resolved
  resolve = resolve_rows (of_source source m)

  resolve_rows_le :
      (rows : List StagedRow) (c : IssueCollector)
      → c.total ≤ (Resolved.collector (resolve rows c)).total
  unfolding resolve_rows
  resolve_rows_le [] c = omega arith
  resolve_rows_le (row ∷ rows) c =
      let turn = resolve_row (sought source m row) row c in
      let a = resolve_row_le (sought source m row) row c in
      let b = resolve_rows_le rows (turn.2) in
      rw (turn_then-collector turn (resolve rows (turn.2))) (omega (arith, a, b))

  resolve_rows-AllValid :
      (rows : List StagedRow) (c : IssueCollector)
      → IsFresh c
      → (Resolved.collector (resolve rows c)).total ≡ 0
      → ((Resolved.collector (resolve rows c)) ≡ c)
        × AllValid source m.territories m.facts rows (Resolved.rows (resolve rows c))
  unfolding resolve_rows
  resolve_rows-AllValid [] c f z =
      (refl, record { resolved = tt; same_ids = refl; kept = λ P i a. tt })
  resolve_rows-AllValid (row ∷ rows) c f z =
      let g = sought source m row in
      let turn = resolve_row g row c in
      let col = turn_then-collector turn (resolve rows (turn.2)) in
      let z₁ : (Resolved.collector (resolve rows (turn.2))).total ≡ 0 =
        sym (ap IssueCollector.total col) ∙ z in
      let b = resolve_rows_le rows (turn.2) in
      let (reported, agrees, e) = resolve_row-none g row c f (omega (arith, z₁, b)) in
      let z₂ : (Resolved.collector (resolve rows c)).total ≡ 0 =
        subst
          (λ (t : Bool × StagedRow × IssueCollector).
            (Resolved.collector (resolve rows (t.2))).total ≡ 0)
          e z₁ in
      let (same, v) = resolve_rows-AllValid rows c f z₂ in
      let all : turn_then turn (resolve rows (turn.2))
          ≡ turn_then (true, with_references g row, c) (resolve rows c) =
        ap (λ (t : Bool × StagedRow × IssueCollector). turn_then t (resolve rows (t.2))) e in
      (
        ap Resolved.collector all ∙ same,
        subst (λ (r : Resolved). AllValid source m.territories m.facts (row ∷ rows) r.rows)
            (sym all)
            record {
              resolved = (linked-IsResolved source m row reported agrees, v.resolved);
              same_ids = ap (λ ids. row.source_record_id ∷ ids) v.same_ids;
              kept = λ P i a. (i g row a.0, v.kept P i a.1);
            },
      )

  drained-IsFresh : (c : IssueCollector) → c.total ≡ 0 → IsFresh (drained c)
  drained-IsFresh c z = record { none_counted = z; none_pending = refl }

  resolve_chunk_le :
      (chunk : List StagedRow) (c : IssueCollector)
      → c.total ≤ (Resolved.collector (resolve_chunk source chunk m c)).total
  unfolding resolve_chunk
  resolve_chunk_le [] c = omega arith
  resolve_chunk_le (row ∷ rows) c =
      rw (resolve_chunk-eq source row rows m c) (resolve_rows_le (row ∷ rows) c)

  validate_chunks_le :
      (chunks : List (List StagedRow)) (c : IssueCollector)
      → c.total ≤ (Validation.collector (validate_chunks source chunks m c)).total
  unfolding validate_chunks
  validate_chunks_le [] c = omega arith
  validate_chunks_le (chunk ∷ chunks) c =
      let d = Resolved.collector (resolve_chunk source chunk m c) in
      omega (arith, resolve_chunk_le chunk c, validate_chunks_le chunks (drained d))

  resolve_chunk-AllValid :
      (chunk : List StagedRow) (c : IssueCollector)
      → IsFresh c
      → (Resolved.collector (resolve_chunk source chunk m c)).total ≡ 0
      → AllValid source m.territories m.facts chunk (Resolved.rows (resolve_chunk source chunk m c))
  unfolding resolve_chunk
  resolve_chunk-AllValid [] c f z = record { resolved = tt; same_ids = refl; kept = λ P i a. tt }
  resolve_chunk-AllValid (row ∷ rows) c f z =
      let e = resolve_chunk-eq source row rows m c in
      subst (λ (r : Resolved). AllValid source m.territories m.facts (row ∷ rows) r.rows) (sym e)
        ((resolve_rows-AllValid (row ∷ rows) c f
          (sym (ap (λ (r : Resolved). (Resolved.collector r).total) e) ∙ z)).1)

  pub validate_chunks-AllValid :
      (chunks : List (List StagedRow)) (c : IssueCollector)
      → IsFresh c
      → (Validation.collector (validate_chunks source chunks m c)).total ≡ 0
      → IsFresh (Validation.collector (validate_chunks source chunks m c))
        × AllValid source m.territories m.facts
            (flat chunks)
            (Validation.rows (validate_chunks source chunks m c))
  unfolding validate_chunks flat
  validate_chunks-AllValid [] c f z =
      (f, record { resolved = tt; same_ids = refl; kept = λ P i a. tt })
  validate_chunks-AllValid (chunk ∷ chunks) c f z =
      let r = resolve_chunk source chunk m c in
      let d = drained (Resolved.collector r) in
      let low : (Resolved.collector r).total ≡ 0 = omega (arith, validate_chunks_le chunks d, z) in
      let v = resolve_chunk-AllValid chunk c f low in
      let (g, w) =
        validate_chunks-AllValid chunks d (drained-IsFresh (Resolved.collector r) low) z in
      (
        g,
        record {
          resolved =
              All-append (IsResolved source m.territories m.facts) r.rows
                (Validation.rows (validate_chunks source chunks m d)) v.resolved w.resolved;
          same_ids =
              identifiers-append r.rows (Validation.rows (validate_chunks source chunks m d))
              ∙ (λ i. v.same_ids i ++ w.same_ids i)
              ∙ sym (identifiers-append chunk (flat chunks));
          kept = λ P i a.
              let (a₁, a₂) = All-split (λ x. P x ≡ true) chunk (flat chunks) a in
              All-append (λ x. P x ≡ true) r.rows
                (Validation.rows (validate_chunks source chunks m d)) (v.kept P i a₁)
                (w.kept P i a₂);
        },
      )
