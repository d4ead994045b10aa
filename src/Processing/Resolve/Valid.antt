-- ===== src/Processing/Resolve/Valid.antt =====
-- What a row satisfies that is resolved without an issue.
use pharma_intel.Base.{
  ℕ, ◌≤◌, ◌<◌, ◌≡◌, refl, Bool, true, false, not, some, All, ◌||◌, List, [], ◌∷◌, find, filter,
  find-holds, arith, Bool-cases, Option-cases, inl, inr, is_some, sym, ◌∙◌, ap,
}
use mathlib.Core.Path.{subst}
use mathlib.Core.Option.{some-injective}
use pharma_intel.Base.Text.{Text, text_eq, is_empty}
use pharma_intel.Base.Table.{get, Unique, All-stored}
use pharma_intel.Base.Date.{Date}
use pharma_intel.Processing.Issues.{IssueCollector, Report, add}
use pharma_intel.Processing.Facts.{
  StagedRow, Fact, new_fact, fact_of, has_source, is_insertable, date_eq, is_date_of,
}
use pharma_intel.Processing.Checks.{Territory, territory_key, is_leaf, leaf_checked}
use pharma_intel.Processing.Publish.{is_conflict, conflict_report}
use pharma_intel.Processing.Publish.Insertion.{IsFresh, add_le, add-counts}
use pharma_intel.Processing.Resolve.{Master, Found, found, Coded, optional_code, by_code}
use pharma_intel.Processing.Resolve.Rows.{
  reference_reports, add_all, with_references, differs_from, resolve_row, coded_id, territory_id,
}
use pharma_intel.Processing.Resolve.Prefetch.{of_source}

add_all_le : (rs : List Report) (c : IssueCollector) → c.total ≤ (add_all rs c).total
unfolding add_all
add_all_le [] c = omega arith
add_all_le (r ∷ rs) c = omega (arith, add_all_le rs (add r c), add_le r c)

add_all-nil : (c : IssueCollector) → add_all [] c ≡ c
unfolding add_all
add_all-nil c = refl

add_all-none :
    (rs : List Report) (c : IssueCollector) → IsFresh c → (add_all rs c).total ≡ 0 → rs ≡ []
unfolding add_all
add_all-none [] c f z = refl
add_all-none (r ∷ rs) c f z =
    absurd (omega (arith, add_all_le rs (add r c), add-counts r c f.none_pending, z))

-- A row whose references are all there: what the database asks of a row that is linked, and what
-- its publication needs.
pub record IsResolved (source : Text) (territories : List Territory) (facts : List Fact)
    (row : StagedRow) : Type 0 where
  pub complete : (created_by : ℕ) → is_insertable (new_fact source created_by 0 row) ≡ true
  pub leaf : Unique territory_key territories → leaf_checked territories row.territory ≡ true
  pub dated : is_date_of row.calendar_date row.transaction_date ≡ true
  pub no_conflict : is_conflict source facts row ≡ false
  pub hospital_given : is_some row.hospital ≡ not (is_empty row.hospital_code)
  pub representative_given :
      is_some row.sales_representative ≡ not (is_empty row.sales_representative_code)

fact_of-source :
    (source id : Text) (facts : List Fact)
    → find (λ f. text_eq f.source_record_id id) (filter (λ f. text_eq f.source_system source) facts)
      ≡ fact_of source id facts
unfolding has_source
fact_of-source source id [] = refl
fact_of-source source id (f ∷ facts) = elim (Bool-cases (text_eq f.source_system source)) [
  | inl e ↦ ground (arith, e, fact_of-source source id facts)
  | inr e ↦ ground (arith, e, fact_of-source source id facts)
]

insertable_found :
    (g : Found) (row : StagedRow) (created_by : ℕ) (source : Text)
    → is_some g.calendar ≡ true
    → is_some g.product ≡ true
    → is_some g.territory ≡ true
    → is_insertable (new_fact source created_by 0 (with_references g row)) ≡ true
insertable_found g row created_by source p q t = ground (arith, p, q, t)

no_reports :
    (g : Found) (row : StagedRow)
    → reference_reports g row ≡ []
    → (is_some g.calendar ≡ true)
      × (is_some g.product ≡ true)
      × (is_some g.territory ≡ true)
      × ((t : Territory) → g.territory ≡ some t → is_leaf t.level ≡ true)
      × ((is_empty row.hospital_code || is_some g.hospital) ≡ true)
      × ((is_empty row.sales_representative_code || is_some g.representative) ≡ true)
unfolding reference_reports
no_reports g row h = (
  ground (arith, h),
  ground (arith, h),
  ground (arith, h),
  λ t e. ground (arith, h, e),
  ground (arith, h),
  ground (arith, h),
)

module _ (g : Found) (row : StagedRow) (c : IssueCollector) where
  pub resolve_row_le : c.total ≤ ((resolve_row g row c).2).total
  unfolding resolve_row
  resolve_row_le =
      let noted = add_all (reference_reports g row) c in
      let a = add_all_le (reference_reports g row) c in
      let b = add_le (conflict_report row) noted in ground (arith, a, b)

  noted_low : ((resolve_row g row c).2).total ≡ 0 → (add_all (reference_reports g row) c).total ≡ 0
  unfolding resolve_row
  noted_low z =
      let b = add_le (conflict_report row) (add_all (reference_reports g row) c) in
      ground (arith, b, z)

  -- A turn that counts nothing has no issue to report, and links the row.
  pub resolve_row-none :
      IsFresh c
      → ((resolve_row g row c).2).total ≡ 0
      → (reference_reports g row ≡ [])
        × (differs_from g.fact (with_references g row) ≡ false)
        × (resolve_row g row c ≡ (true, with_references g row, c))
  unfolding resolve_row
  resolve_row-none f z =
      let none_reported = add_all-none (reference_reports g row) c f (noted_low z) in
      let same : add_all (reference_reports g row) c ≡ c =
        ap (λ xs. add_all xs c) none_reported ∙ add_all-nil c in
      let k : 0 < (add (conflict_report row) c).total =
        add-counts (conflict_report row) c f.none_pending in
      elim (Bool-cases (differs_from g.fact (with_references g row))) [
        | inl e ↦ absurd (ground (arith, e, k, z, same, f.none_counted))
        | inr e ↦ (none_reported, e, ground (arith, e, same))
      ]

found_date :
    (x : Date) (ds : List Date)
    → is_some (find (λ d. date_eq d x) ds) ≡ true
    → is_date_of (find (λ d. date_eq d x) ds) x ≡ true
found_date x ds h = elim (Option-cases (find (λ d. date_eq d x) ds)) [
  | inl e ↦ absurd (ground (arith, e, h))
  | inr (d, e) ↦ rw e (find-holds (λ y. date_eq y x) d ds e)
]

is_conflict-differs :
    (source : Text) (facts : List Fact) (row : StagedRow)
    → is_conflict source facts row ≡ differs_from (fact_of source row.source_record_id facts) row
unfolding is_conflict differs_from
is_conflict-differs source facts row =
    elim (Option-cases (fact_of source row.source_record_id facts)) [
      | inl e ↦ ground (arith, e)
      | inr (f, e) ↦ ground (arith, e)
    ]

given_code :
    (code : Text) (items : List Coded)
    → (is_empty code || is_some (optional_code code items)) ≡ true
    → is_some (coded_id (optional_code code items)) ≡ not (is_empty code)
given_code code items h = elim (Bool-cases (is_empty code)) [
  | inl e ↦ ground (arith, e, h)
  | inr e ↦ ground (arith, e, h)
]

found-All :
    {A : Type 0} (P : A → Type 0) (test : A → Bool) (x : A) (xs : List A)
    → All P xs
    → find test xs ≡ some x
    → P x
found-All P test x [] a e = cc
found-All P test x (y ∷ ys) a e = elim (Bool-cases (test y)) [
  | inl hit ↦ subst P (some-injective y x (rw hit at e)) a.0
  | inr miss ↦ found-All P test x ys a.1 (rw miss at e)
]

-- The trigger finds the territory that was looked up by its code.
found_leaf :
    (code : Text) (places : List Territory)
    → Unique territory_key places
    → ((t : Territory) → by_code Territory.code code places ≡ some t → is_leaf t.level ≡ true)
    → leaf_checked places (territory_id (by_code Territory.code code places)) ≡ true
unfolding leaf_checked
found_leaf code places u h = elim (Option-cases (by_code Territory.code code places)) [
  | inl e ↦ rw e refl
  | inr (t, e) ↦
      let stored : get territory_key t.id places ≡ some t =
        found-All (λ r. get territory_key r.id places ≡ some r)
          (λ i. text_eq (Territory.code i) code) t places (All-stored territory_key places u) e in
      let leaf : is_leaf t.level ≡ true = h t e in ground (arith, e, stored, leaf)
]

module _ (source : Text) (m : Master) (row : StagedRow) where
  abbrev pub sought : Found
  sought = found (of_source source m) row

  pub linked-IsResolved :
      reference_reports sought row ≡ []
      → differs_from sought.fact (with_references sought row) ≡ false
      → IsResolved source m.territories m.facts (with_references sought row)
  unfolding found
  linked-IsResolved none_reported agrees =
      let (p, q, t, l, h, r) = no_reports sought row none_reported in
      record {
        complete = λ created_by. insertable_found sought row created_by source p q t;
        leaf = λ u. found_leaf row.territory_code m.territories u l;
        dated = found_date row.transaction_date m.calendars p;
        no_conflict =
            is_conflict-differs source m.facts (with_references sought row)
            ∙ ap (λ o. differs_from o (with_references sought row))
                (sym (fact_of-source source row.source_record_id m.facts))
            ∙ agrees;
        hospital_given = given_code row.hospital_code m.hospitals h;
        representative_given = given_code row.sales_representative_code m.representatives r;
      }
