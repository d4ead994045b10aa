-- ===== src/Processing/Stage/Turns.antt =====
-- What the loop of `_stage_csv` stages and counts, turn by turn.
use pharma_intel.Base.{
  ℕ, suc, ◌+◌, ◌%◌, ◌≡◌, refl, none, some, List, [], ◌∷◌, ◌++◌, ◌==◌, length, length-append, arith,
  ok, Bool-cases, Option-cases, inl, inr, >>=-eq-ok, sym, ◌∙◌, ap,
}
use mathlib.Core.Path.{subst₂}
use mathlib.Core.List.{append_assoc, append-nil}
use pharma_intel.Contract.Fields.{SalesRowIssue}
use pharma_intel.Contract.Row.{RowResult}
use pharma_intel.Queue.Rows.{Issue}
use pharma_intel.Queue.Claim.{SalesImportClaim}
use pharma_intel.Queue.Lease.{locked_live_claim}
use pharma_intel.Processing.Issues.{IssueCollector, Report, add, drained}
use pharma_intel.Processing.Facts.{StagedRow}
use pharma_intel.Processing.Stage.{
  Settings, Progress, Tables, record_parse_batch, claim_matches, add_issues, issue_report,
  valid_row, staged_row, Staging, note_result,
}
use pharma_intel.Processing.Stage.Loop.{Surroundings, seen_by, stage_results}

-- The staged rows of the valid results, in order.
unfoldable pub rows_of : ℕ → List RowResult → List StagedRow
rows_of attempt [] = []
rows_of attempt (r ∷ rs) = elim (valid_row r) [
  | none ↦ rows_of attempt rs
  | some row ↦ staged_row attempt r.row_number row ∷ rows_of attempt rs
]

add-attempt : (r : Report) (c : IssueCollector) → (add r c).attempt_id ≡ c.attempt_id
unfolding add
add-attempt r c = ground arith

add_issues-attempt :
    (settings : Settings) (is : List SalesRowIssue) (c : IssueCollector)
    → (add_issues settings is c).attempt_id ≡ c.attempt_id
unfolding add_issues
add_issues-attempt settings [] c = refl
add_issues-attempt settings (i ∷ is) c =
    add_issues-attempt settings is (add (issue_report settings i) c)
    ∙ add-attempt (issue_report settings i) c

module _ (settings : Settings) (claim : SalesImportClaim) where
  pub record_parse_batch-staged :
      (rows : List StagedRow) (issues : List Issue) (p : Progress) (now : ℕ) (t t' : Tables)
      → record_parse_batch settings claim rows issues p now t ≡ ok t'
      → t'.staged ≡ t.staged ++ rows
  unfolding record_parse_batch
  record_parse_batch-staged rows issues p now t t' h =
      let (found, l, h₁) =
        >>=-eq-ok (locked_live_claim claim.job_id (some claim.lease_token) now t.queue) _ h in
      let (u, m, h₂) = >>=-eq-ok (claim_matches (found.1) claim) _ h₁ in ground (arith, h₂)

-- What some turns of the loop do, from the rows that are staged or pending to those that are then.
pub record Turns (attempt : ℕ) (rs : List RowResult) (s s' : Staging)
    (before after : List StagedRow) : Type 0 where
  pub kept : (Staging.collector s').attempt_id ≡ attempt
  pub total : (Staging.progress s').total_rows ≡ (Staging.progress s).total_rows + length rs
  pub valid :
      (Staging.progress s').valid_rows
      ≡ (Staging.progress s).valid_rows + length (rows_of attempt rs)
  pub added :
      (Staging.progress s').valid_rows
        + (Staging.progress s').invalid_rows
        + (Staging.progress s).total_rows
      ≡ (Staging.progress s).valid_rows
        + (Staging.progress s).invalid_rows
        + (Staging.progress s').total_rows
  pub staged : after ++ s'.pending_rows ≡ (before ++ s.pending_rows) ++ rows_of attempt rs

note_pending :
    (settings : Settings) (attempt : ℕ) (r : RowResult) (s : Staging)
    → (Staging.collector s).attempt_id ≡ attempt
    → (note_result settings r s).pending_rows ≡ s.pending_rows ++ rows_of attempt (r ∷ [])
unfolding note_result rows_of
note_pending settings attempt r s e = elim (Option-cases (valid_row r)) [
  | inl n ↦
      let same : (note_result settings r s).pending_rows ≡ s.pending_rows = ground (arith, n) in
      let nothing : [] ≡ rows_of attempt (r ∷ []) = ground (arith, n) in
      same ∙ sym (append-nil s.pending_rows) ∙ ap (λ ps. s.pending_rows ++ ps) nothing
  | inr (row, n) ↦ ground (arith, n, e)
]

note_result-Turns :
    (settings : Settings) (attempt : ℕ) (r : RowResult) (s : Staging) (before : List StagedRow)
    → (Staging.collector s).attempt_id ≡ attempt
    → Turns attempt (r ∷ []) s (note_result settings r s) before before
unfolding note_result rows_of
note_result-Turns settings attempt r s before e =
    let k = add_issues-attempt settings r.issues s.collector in
    elim (Option-cases (valid_row r)) [
      | inl n ↦ record {
        kept = ground (arith, n, k, e);
        total = ground (arith, n);
        valid = ground (arith, n);
        added = ground (arith, n);
        staged =
            ap (λ ps. before ++ ps) (note_pending settings attempt r s e)
            ∙ sym (append_assoc before s.pending_rows (rows_of attempt (r ∷ [])));
      }
      | inr (row, n) ↦ record {
        kept = ground (arith, n, e);
        total = ground (arith, n);
        valid = ground (arith, n);
        added = ground (arith, n);
        staged =
            ap (λ ps. before ++ ps) (note_pending settings attempt r s e)
            ∙ sym (append_assoc before s.pending_rows (rows_of attempt (r ∷ [])));
      }
    ]

rows_of-cons :
    (a : ℕ) (q : RowResult) (qs : List RowResult)
    → rows_of a (q ∷ qs) ≡ rows_of a (q ∷ []) ++ rows_of a qs
unfolding rows_of
rows_of-cons a q qs = elim (Option-cases (valid_row q)) [
  | inl n ↦ ground (arith, n)
  | inr (row, n) ↦ ground (arith, n)
]

Turns-then :
    (attempt : ℕ) (r : RowResult) (rs : List RowResult) (s₁ s₂ s₃ : Staging)
    (b₁ b₂ b₃ : List StagedRow)
    → Turns attempt (r ∷ []) s₁ s₂ b₁ b₂
    → Turns attempt rs s₂ s₃ b₂ b₃
    → Turns attempt (r ∷ rs) s₁ s₃ b₁ b₃
Turns-then attempt r rs s₁ s₂ s₃ b₁ b₂ b₃ x y =
    let split = rows_of-cons attempt r rs in
    let n : length (rows_of attempt (r ∷ rs))
        ≡ length (rows_of attempt (r ∷ [])) + length (rows_of attempt rs) =
      ap (λ ps. length ps) split ∙ length-append (rows_of attempt (r ∷ [])) (rows_of attempt rs) in
    record {
      kept = y.kept;
      total = omega (arith, x.total, y.total);
      valid = omega (arith, x.valid, y.valid, n);
      added = omega (arith, x.added, y.added);
      staged =
          y.staged
          ∙ ap (λ ps. ps ++ rows_of attempt rs) x.staged
          ∙ append_assoc (b₁ ++ s₁.pending_rows) (rows_of attempt (r ∷ [])) (rows_of attempt rs)
          ∙ ap (λ ps. (b₁ ++ s₁.pending_rows) ++ ps) (sym split);
    }

module _ (settings : Settings) (claim : SalesImportClaim) (around : Surroundings)
    (attempt : ℕ) where
  pub stage_results-Turns :
      (n n' : ℕ) (rs : List RowResult) (s s' : Staging) (t t' : Tables)
      → (Staging.collector s).attempt_id ≡ attempt
      → stage_results settings claim around n rs s t ≡ ok (n', s', t')
      → Turns attempt rs s s' t.staged t'.staged
  unfolding stage_results rows_of
  stage_results-Turns n n' [] s s' t t' e h =
      let same : s ≡ s' = ground (arith, h) in
      let same' : t.staged ≡ t'.staged = ground (arith, h) in
      subst₂ (λ x ys. Turns attempt [] s x t.staged ys) same same'
        record {
          kept = e;
          total = omega arith;
          valid = omega arith;
          added = refl;
          staged = sym (append-nil (t.staged ++ s.pending_rows));
        }
  stage_results-Turns n n' (r ∷ rs) s s' t t' e h =
      let m = note_result settings r s in
      let x = note_result-Turns settings attempt r s t.staged e in
      elim (Bool-cases ((Staging.progress m).total_rows % settings.db_batch_size == 0)) [
        | inr k ↦
            Turns-then attempt r rs s m s' t.staged t.staged t'.staged x
              (stage_results-Turns n n' rs m s' t t' x.kept (rw (k, stage_results) at h))
        | inl k ↦
            let (t₁, b, h₁) =
              >>=-eq-ok
                (record_parse_batch settings claim m.pending_rows (Staging.collector m).issues
                  m.progress (around.clock n) (seen_by around n t))
                _ (rw (k, stage_results) at h) in
            let g =
              record_parse_batch-staged settings claim m.pending_rows (Staging.collector m).issues
                m.progress (around.clock n) (seen_by around n t) t₁ b in
            let m' = record m { collector = drained m.collector; pending_rows = [] } in
            let y : Turns attempt (r ∷ []) s m' t.staged t₁.staged = record {
              kept = x.kept;
              total = x.total;
              valid = x.valid;
              added = x.added;
              staged = append-nil t₁.staged ∙ g ∙ x.staged;
            } in
            Turns-then attempt r rs s m' s' t.staged t₁.staged t'.staged y
              (stage_results-Turns (suc n) n' rs m' s' t₁ t' x.kept h₁)
      ]
