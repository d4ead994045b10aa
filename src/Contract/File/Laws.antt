-- ===== src/Contract/File/Laws.antt =====
-- What the results of a whole file satisfy.
use mathlib.Core.Path.{subst, subst₂}
use mathlib.Core.Option.{some-injective}
use pharma_intel.Base.{
  ℕ, suc, ◌≤◌, ◌≡◌, true, false, Option, none, some, List, ◌∷◌, ◌==◌, leb, length, arith, refl,
  Bool-cases, inl, inr, sym, ◌∙◌, ok, Result-cases, >>=-eq-ok,
}
use pharma_intel.Base.Text.{Text, is_empty, strip, strip-IsTrimmed}
use pharma_intel.Queue.Checks.{equals_trim}
use pharma_intel.Queue.Checks.Rows.{equals_trim_of_trimmed}
use pharma_intel.Contract.Headers.{is_member}
use pharma_intel.Contract.Fields.{Platform, Decimal}
use pharma_intel.Contract.Fields.Laws.{IsOptional}
use pharma_intel.Contract.Cells.{Cells, cells_of, zip_cells}
use pharma_intel.Contract.Row.{
  SalesRowV1, RowResult, Validator, note_row, validate, validate_cells, note_id, signs_differ,
  is_zero,
}
use pharma_intel.Contract.Row.Laws.{IsAccepted, validate_cells-cases}
use pharma_intel.Contract.File.{yielded, turn, validate_turn, mismatch_turn, mismatch, is_blank_row}
use pharma_intel.Contract.Staged.{
  measures_valid, code_checked, optional_checked, staged_row_checked, Agrees,
}

measures_ok :
    (q m : Decimal) → is_zero q ≡ false → signs_differ q m ≡ false → measures_valid q m ≡ true
unfolding measures_valid signs_differ
measures_ok q m n s = ground (arith, n, s)

module _ (p : Platform) (db_upper : Text → Text) (agree : Agrees p db_upper) where
  trimmed_cell : (cell : Text) → equals_trim (strip cell) ≡ true
  trimmed_cell cell = equals_trim_of_trimmed (strip cell) (strip-IsTrimmed cell)

  upper-code_checked :
      (cell code : Text)
      → code ≡ p.upper (strip cell)
      → leb (length code) 64 ≡ true
      → code_checked db_upper code ≡ true
  unfolding code_checked
  upper-code_checked cell code e l =
      let t = agree.upper_trimmed (strip cell) (trimmed_cell cell) in
      let u = agree.upper_same (strip cell) in
      let short : leb (length (p.upper (strip cell))) 64 ≡ true =
        subst (λ (c : Text). leb (length c) 64 ≡ true) e l in
      subst (λ (c : Text). code_checked db_upper c ≡ true) (sym e) (ground (arith, t, u, short))

  optional-checked :
      (cell : Text) (code : Option Text)
      → IsOptional p 64 true cell code
      → optional_checked db_upper code ≡ true
  unfolding code_checked
  optional-checked cell none h = ground (arith, agree.empty_same)
  optional-checked cell (some code) h = upper-code_checked cell code (h.1) (h.2)

  full_code :
      (cell code : Text)
      → is_empty (strip cell) ≡ false
      → code ≡ p.upper (strip cell)
      → is_empty code ≡ false
  full_code cell code n e =
      subst (λ (c : Text). is_empty c ≡ false) (sym e) (agree.upper_full (strip cell) n)

  -- An accepted row passes the constraints of its staged row, at every row number from 2 on.
  accepted-staged_row_checked :
      (cells : Cells) (ids : List Text) (r : SalesRowV1) (row : ℕ)
      → IsAccepted p cells ids r
      → leb 2 row ≡ true
      → staged_row_checked db_upper row r ≡ true
  unfolding staged_row_checked
  accepted-staged_row_checked cells ids r row a h =
      let t : equals_trim r.source_record_id ≡ true =
        subst (λ (s : Text). equals_trim s ≡ true) (sym a.id_cell)
          (trimmed_cell cells.source_record_id) in
      let product =
        upper-code_checked cells.product_code r.product_code a.product_cell a.product_short in
      let territory =
        upper-code_checked cells.territory_code r.territory_code a.territory_cell
          a.territory_short in
      let b = full_code cells.product_code r.product_code a.product_given a.product_cell in
      let c = full_code cells.territory_code r.territory_code a.territory_given a.territory_cell in
      let d = optional-checked cells.hospital_code r.hospital_code a.hospital_cell in
      let e =
        optional-checked cells.sales_representative_code r.sales_representative_code
          a.representative_cell in
      let q = agree.quantity_below r.quantity a.quantity_fits in
      let m = agree.revenue_below r.revenue_amount a.revenue_fits in
      let measures : measures_valid r.quantity r.revenue_amount ≡ true =
        measures_ok r.quantity r.revenue_amount a.quantity_nonzero a.signs_agree in
      ground (
        arith, h, t, a.id_full, a.id_short, product, b, territory, c, d, e, a.currency_letters,
        measures, q, m,
      )

-- What a result adds to a file: the validator has counted one more row, within the limit, and has
-- kept the identifiers; a valid row is accepted by them, and its own is kept as well.
pub record IsYield (p : Platform) (row : ℕ) (v : Validator) (r : RowResult) (v' : Validator)
    : Type 0 where
  pub counted : v'.row_count ≡ suc v.row_count
  pub limit : v'.max_rows ≡ v.max_rows
  pub within : suc v.row_count ≤ v.max_rows
  pub numbered : r.row_number ≡ row
  pub kept :
      (t : Text) → is_member t v.source_record_ids ≡ true → is_member t v'.source_record_ids ≡ true
  pub fresh :
      (x : SalesRowV1)
      → r.row ≡ some x
      → (is_member x.source_record_id v.source_record_ids ≡ false)
        × (v'.source_record_ids ≡ x.source_record_id ∷ v.source_record_ids)
        × ((db_upper : Text → Text)
            → Agrees p db_upper
            → leb 2 row ≡ true
            → staged_row_checked db_upper row x ≡ true)

note_row-ok :
    (v v' : Validator)
    → note_row v ≡ ok v'
    → (v' ≡ record v { row_count = suc v.row_count }) × (suc v.row_count ≤ v.max_rows)
unfolding note_row
note_row-ok v v' h = (ground (arith, h), ground (arith, h))

note_id-kept :
    (row : ℕ) (o : Option Text) (ids : List Text) (t : Text)
    → is_member t ids ≡ true
    → is_member t (note_id row o ids).1 ≡ true
unfolding note_id is_member
note_id-kept row none ids t h = h
note_id-kept row (some id) ids t h = elim (Bool-cases (is_member id ids)) [
  | inl e ↦ rw (e, note_id) h
  | inr e ↦ rw (e, note_id) (ground (arith, h))
]

-- Another row is counted.
abbrev one_more : Validator → Validator
one_more v = record v { row_count = suc v.row_count }

module _ (p : Platform) (row : ℕ) (v : Validator) (room : suc v.row_count ≤ v.max_rows) where
  mismatch-IsYield : IsYield p row v (mismatch row) (one_more v)
  mismatch-IsYield = record {
    counted = refl;
    limit = refl;
    within = room;
    numbered = refl;
    kept = λ t h. h;
    fresh = λ x h. cc;
  }

  validate_cells-IsYield :
      (cells : Cells)
      → IsYield p row v
          ((validate_cells p row cells (one_more v)).0)
          ((validate_cells p row cells (one_more v)).1)
  unfolding validate_cells
  validate_cells-IsYield cells = record {
    counted = refl;
    limit = refl;
    within = room;
    numbered = refl;
    kept = λ t h. note_id-kept row _ v.source_record_ids t h;
    fresh = λ x h. elim (validate_cells-cases p row cells (one_more v)) [
      | inl (e, f) ↦ absurd (ground (arith, e, h))
      | inr (e, y, f, n, a) ↦
          let same : y ≡ x = some-injective y x (sym f ∙ h) in
          subst
            (λ (z : SalesRowV1).
              (is_member z.source_record_id v.source_record_ids ≡ false)
              × ((validate_cells p row cells (one_more v)).1.source_record_ids
                  ≡ z.source_record_id ∷ v.source_record_ids)
              × ((db_upper : Text → Text)
                  → Agrees p db_upper
                  → leb 2 row ≡ true
                  → staged_row_checked db_upper row z ≡ true))
            same
            (
              a.id_new,
              n,
              λ db_upper agree k.
                  accepted-staged_row_checked p db_upper agree cells v.source_record_ids y row a k,
            )
    ];
  }

validate-ok :
    (p : Platform) (row : ℕ) (values : List (Text × Text)) (v : Validator) (r : RowResult)
    (v' : Validator)
    → validate p row values v ≡ ok (r, v')
    → (suc v.row_count ≤ v.max_rows)
      × (cells : Cells) × (validate_cells p row cells (one_more v) ≡ (r, v'))
unfolding validate
validate-ok p row values v r v' h =
    let (w, e, h₁) = >>=-eq-ok (note_row v) _ h in
    let (cells, f, h₂) = >>=-eq-ok (cells_of values) _ h₁ in
    let (s, room) = note_row-ok v w e in (room, cells, ground (arith, s, h₂))

pub turn-yielded :
    (p : Platform) (headers : List Text) (row : ℕ) (cells : List Text) (v : Validator)
    (r : RowResult) (v' : Validator)
    → turn p headers row cells v ≡ yielded r v'
    → (is_blank_row cells ≡ false) × IsYield p row v r v'
unfolding turn mismatch_turn validate_turn
turn-yielded p headers row cells v r v' h = elim (Bool-cases (is_blank_row cells)) [
  | inl e ↦ absurd (ground (arith, h, e))
  | inr e ↦ (
    e,
    elim (Bool-cases (length cells == length headers)) [
      | inr f ↦ elim (Result-cases (note_row v)) [
        | inr (x, g) ↦ absurd (ground (arith, h, e, f, g))
        | inl (w, g) ↦
            let (s, room) = note_row-ok v w g in
            let a : mismatch row ≡ r = ground (arith, h, e, f, g) in
            let b : one_more v ≡ v' = ground (arith, h, e, f, g, s) in
            subst₂ (IsYield p row v) a b (mismatch-IsYield p row v room)
      ]
      | inl f ↦ elim (Result-cases (validate p row (zip_cells headers cells) v)) [
        | inr (x, g) ↦ absurd (ground (arith, h, e, f, g))
        | inl ((r₀, v₀), g) ↦
            let (room, cs, k) = validate-ok p row (zip_cells headers cells) v r₀ v₀ g in
            let a : (validate_cells p row cs (one_more v)).0 ≡ r = ground (arith, h, e, f, g, k) in
            let b : (validate_cells p row cs (one_more v)).1 ≡ v' = ground (arith, h, e, f, g, k) in
            subst₂ (IsYield p row v) a b (validate_cells-IsYield p row v room cs)
      ]
    ],
  )
]
