-- ===== src/Processing/Publish/Known.antt =====
-- Rows whose facts are there already, with the same values.
use pharma_intel.Base.{
  ℕ, suc, ◌≡◌, true, some, Option, List, [], ◌∷◌, ◌++◌, arith, All, Option-cases, Bool-cases, inl,
  inr,
}
use mathlib.Core.Path.{subst}
use pharma_intel.Base.Text.{Text}
use pharma_intel.Processing.Facts.{StagedRow, StagedOutcome, Fact, fact_of, fact_matches}
use pharma_intel.Processing.Publish.{is_linked, link_rows}
use pharma_intel.Processing.Publish.Links.{IsLinkedIn, fact_of-kept}

-- A row whose fact is there and says the same.
abbrev pub IsKnown : Text → List Fact → StagedRow → Type 0
IsKnown source facts row = is_linked source facts row ≡ true

linked-IsKnown :
    (source : Text) (facts : List Fact) (row : StagedRow)
    → IsLinkedIn source facts row
    → IsKnown source facts row
unfolding is_linked
linked-IsKnown source facts row x = ground (arith, x.recorded, x.matching)

-- The identifier and the values of a row decide whether it is known, not its outcome.
abbrev with_outcome : StagedOutcome → Option ℕ → StagedRow → StagedRow
with_outcome o t row = record row { outcome = o; sales_transaction = t }

outcome-IsKnown :
    (source : Text) (facts : List Fact) (o : StagedOutcome) (t : Option ℕ) (row : StagedRow)
    → IsLinkedIn source facts (with_outcome o t row)
    → IsKnown source facts row
unfolding is_linked fact_matches
outcome-IsKnown source facts o t row x = linked-IsKnown source facts (with_outcome o t row) x

-- What one row is linked as, and the number that the next new fact gets.
link_rows-cons :
    (source : Text) (seen : List Fact) (next : ℕ) (row : StagedRow) (rows : List StagedRow)
    → (o : StagedOutcome) × (t : Option ℕ) × (n : ℕ) × (link_rows source seen next (row ∷ rows)
        ≡ with_outcome o t row ∷ link_rows source seen n rows)
unfolding link_rows
link_rows-cons source seen next row rows =
    elim (Option-cases (fact_of source row.source_record_id seen)) [
      | inl e ↦ (StagedOutcome.published, some next, suc next, ground (arith, e))
      | inr (f, e) ↦ elim (Bool-cases (fact_matches row f)) [
        | inl m ↦ (StagedOutcome.reused, some f.id, next, ground (arith, e, m))
        | inr m ↦ (row.outcome, row.sales_transaction, next, ground (arith, e, m))
      ]
    ]

-- Rows whose linked versions have a fact that says the same are known.
pub link_rows-IsKnown :
    (source : Text) (seen after : List Fact) (next : ℕ) (rows : List StagedRow)
    → All (IsLinkedIn source after) (link_rows source seen next rows)
    → All (IsKnown source after) rows
link_rows-IsKnown source seen after next [] a = tt
link_rows-IsKnown source seen after next (row ∷ rows) a =
    let (o, t, n, e) = link_rows-cons source seen next row rows in
    let (h, rest) = subst (All (IsLinkedIn source after)) e a in
    (outcome-IsKnown source after o t row h, link_rows-IsKnown source seen after n rows rest)

pub IsKnown-kept :
    (source : Text) (facts more : List Fact) (row : StagedRow)
    → IsKnown source facts row
    → IsKnown source (facts ++ more) row
unfolding is_linked
IsKnown-kept source facts more row h =
    elim (Option-cases (fact_of source row.source_record_id facts)) [
      | inl e ↦ absurd (ground (arith, e, h))
      | inr (f, e) ↦
          let k = fact_of-kept source row.source_record_id f facts more e in ground (arith, e, h, k)
    ]
