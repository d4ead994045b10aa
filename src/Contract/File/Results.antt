-- ===== src/Contract/File/Results.antt =====
-- The theorems on `iter_sales_rows_v1_csv`.
use pharma_intel.Base.{
  ℕ, suc, ◌≤◌, ◌<◌, ◌≡◌, ◌≢◌, true, none, some, List, [], ◌∷◌, ◌==◌, ltb, length, arith, refl,
  Bool-cases, inl, inr, Option-cases, All, ok, Result-cases, count, is_some, ==_iff,
}
use pharma_intel.Base.Text.{Text, codes}
use pharma_intel.Contract.Headers.{
  key_error, is_member, validate_sales_headers, sales_rows_v1_columns, occurrences,
}
use pharma_intel.Contract.Headers.Laws.{validate_sales_headers_iff, occurrences-member}
use pharma_intel.Contract.Fields.{Platform}
use pharma_intel.Contract.Cells.{Cells, cell, cells_of, zip_cells}
use pharma_intel.Contract.Row.{Validator, note_row, validate}
use pharma_intel.Contract.File.{
  Read, line, malformed, raised, turn, rows_from, iter_sales_rows_v1_csv, new_validator,
  mismatch_turn, validate_turn,
}
use pharma_intel.Contract.Staged.{result_checked, Agrees}
use pharma_intel.Contract.File.Rows.{
  row_ids, are_distinct, line_positive, is_data, rows_from-distinct, rows_from-staged,
  rows_from-within, rows_from_complete, Turn-cases,
}

-- In every file the valid rows have different source identifiers, whatever is wrong with the other
-- rows and wherever the reading stops.
pub iter-distinct :
    (p : Platform) (max_rows : ℕ) (reads : List Read)
    → are_distinct [] (row_ids ((iter_sales_rows_v1_csv p max_rows reads).0)) ≡ true
unfolding iter_sales_rows_v1_csv row_ids are_distinct
iter-distinct p max_rows [] = refl
iter-distinct p max_rows (malformed ∷ reads) = refl
iter-distinct p max_rows (line cells n ∷ reads) =
    elim (Result-cases (validate_sales_headers cells)) [
      | inr (e, h) ↦ rw (h, iter_sales_rows_v1_csv) refl
      | inl (hs, h) ↦ elim (Bool-cases (ltb max_rows 1)) [
        | inl z ↦ rw (h, iter_sales_rows_v1_csv, z) refl
        | inr z ↦
            rw (h, iter_sales_rows_v1_csv, z)
              (rows_from-distinct p hs [] n reads (new_validator max_rows) (λ t m. m))
      ]
    ]

-- If the reader counts its lines from one on, and the two systems agree on upper case and on
-- decimals, every valid row passes what the database asks of the columns of its staged row: a row
-- number from 2 on; an identifier, a product and a territory that are trimmed and not empty; codes
-- in upper case, the optional ones trimmed as well; texts within the widths of their columns; a
-- currency of three capitals; and a quantity that is not zero, with a revenue of no opposite sign,
-- both within their digits.
pub iter-staged :
    (p : Platform) (db_upper : Text → Text) (max_rows : ℕ) (reads : List Read)
    → Agrees p db_upper
    → All (λ d. line_positive d ≡ true) reads
    → All (λ r. result_checked db_upper r ≡ true) (iter_sales_rows_v1_csv p max_rows reads).0
unfolding iter_sales_rows_v1_csv
iter-staged p db_upper max_rows [] agree a = tt
iter-staged p db_upper max_rows (malformed ∷ reads) agree a = tt
iter-staged p db_upper max_rows (line cells n ∷ reads) agree a =
    elim (Result-cases (validate_sales_headers cells)) [
      | inr (e, h) ↦ rw (h, iter_sales_rows_v1_csv) tt
      | inl (hs, h) ↦ elim (Bool-cases (ltb max_rows 1)) [
        | inl z ↦ rw (h, iter_sales_rows_v1_csv, z) tt
        | inr z ↦
            rw (h, iter_sales_rows_v1_csv, z)
              (rows_from-staged p hs db_upper agree n reads (new_validator max_rows) a.0 a.1)
      ]
    ]

-- No file yields more results than the limit on rows.
pub iter-within :
    (p : Platform) (max_rows : ℕ) (reads : List Read)
    → length ((iter_sales_rows_v1_csv p max_rows reads).0) ≤ max_rows
unfolding iter_sales_rows_v1_csv
iter-within p max_rows [] = omega arith
iter-within p max_rows (malformed ∷ reads) = omega arith
iter-within p max_rows (line cells n ∷ reads) = elim (Result-cases (validate_sales_headers cells)) [
  | inr (e, h) ↦ rw (h, iter_sales_rows_v1_csv) (omega arith)
  | inl (hs, h) ↦ elim (Bool-cases (ltb max_rows 1)) [
    | inl z ↦ rw (h, iter_sales_rows_v1_csv, z) (omega arith)
    | inr z ↦
        rw (h, iter_sales_rows_v1_csv, z)
          (omega (arith, rows_from-within p hs n reads (new_validator max_rows) (omega arith)))
  ]
]

-- A file that is read to its end without an error yields at least one result, and exactly one for
-- each row after the headers with a value in it: none is lost.
pub iter_complete :
    (p : Platform) (max_rows : ℕ) (headers : List Text) (n : ℕ) (reads : List Read)
    → (iter_sales_rows_v1_csv p max_rows (line headers n ∷ reads)).1 ≡ none
    → (length ((iter_sales_rows_v1_csv p max_rows (line headers n ∷ reads)).0)
        ≡ count is_data reads)
      × (0 < count is_data reads)
unfolding iter_sales_rows_v1_csv
iter_complete p max_rows cells n reads k = elim (Result-cases (validate_sales_headers cells)) [
  | inr (e, h) ↦ absurd (ground (arith, h, k))
  | inl (hs, h) ↦ elim (Bool-cases (ltb max_rows 1)) [
    | inl z ↦ absurd (ground (arith, h, z, k))
    | inr z ↦
        let r = rows_from p hs n reads (new_validator max_rows) in
        let same : iter_sales_rows_v1_csv p max_rows (line cells n ∷ reads) ≡ r =
          rw (h, iter_sales_rows_v1_csv, z) refl in
        let g : r.1 ≡ none = ground (arith, h, z, k) in
        let (a, b) = rows_from_complete p hs n reads (new_validator max_rows) g in
        rw same (a, omega (arith, a, b))
  ]
]

-- A column among the headers of a row with as many cells has a cell.
cell-zip_cells :
    (c : Text) (hs cs : List Text)
    → length cs ≡ length hs
    → is_member c hs ≡ true
    → is_some (cell c (zip_cells hs cs)) ≡ true
unfolding cell zip_cells is_member
cell-zip_cells c [] cs e m = cc
cell-zip_cells c (h ∷ hs) [] e m = absurd (omega (arith, e))
cell-zip_cells c (h ∷ hs) (x ∷ cs) e m =
    ground (arith, m, cell-zip_cells c hs cs (omega (arith, e)))

module _ (hs : List Text)
    (same : (h : Text) → occurrences h hs ≡ occurrences h sales_rows_v1_columns) where
  column-member : (c : Text) → is_member c sales_rows_v1_columns ≡ true → is_member c hs ≡ true
  column-member c m =
      (occurrences-member c hs).1
        (omega (arith, same c, (occurrences-member c sales_rows_v1_columns).0 m))

  cells_of-zip_cells :
      (cs : List Text)
      → length cs ≡ length hs
      → (cells : Cells) × (cells_of (zip_cells hs cs) ≡ ok cells)
  unfolding cells_of is_member
  cells_of-zip_cells cs e =
      let (a, fa) = found (codes "source_record_id") refl in
      let (b, fb) = found (codes "transaction_date") refl in
      let (c, fc) = found (codes "product_code") refl in
      let (d, fd) = found (codes "territory_code") refl in
      let (f, ff) = found (codes "hospital_code") refl in
      let (g, fg) = found (codes "sales_representative_code") refl in
      let (i, fi) = found (codes "quantity") refl in
      let (j, fj) = found (codes "revenue_amount") refl in
      let (k, fk) = found (codes "currency_code") refl in
      (
        record {
          source_record_id = a;
          transaction_date = b;
          product_code = c;
          territory_code = d;
          hospital_code = f;
          sales_representative_code = g;
          quantity = i;
          revenue_amount = j;
          currency_code = k;
        },
        rw (fa, fb, fc, fd, ff, fg, fi, fj, fk) refl,
      )
    where
      found :
          (c : Text)
          → is_member c sales_rows_v1_columns ≡ true
          → (x : Text) × (cell c (zip_cells hs cs) ≡ some x)
      found c m = elim (Option-cases (cell c (zip_cells hs cs))) [
        | inl n ↦ absurd (ground (arith, n, cell-zip_cells c hs cs e (column-member c m)))
        | inr (x, n) ↦ (x, n)
      ]

  module _ (p : Platform) where
    turn-found : (row : ℕ) (cs : List Text) (v : Validator) → turn p hs row cs v ≢ raised key_error
    unfolding turn mismatch_turn validate_turn validate note_row
    turn-found row cs v h = elim (Bool-cases (length cs == length hs)) [
      | inl e ↦
          let (cells, f) = cells_of-zip_cells cs ((==_iff (length cs) (length hs)).0 e) in
          ground (arith, e, f, h)
      | inr e ↦ ground (arith, e, h)
    ]

    rows_from-found :
        (at : ℕ) (reads : List Read) (v : Validator)
        → (rows_from p hs at reads v).1 ≢ some key_error
    unfolding rows_from
    rows_from-found at [] v h = ground (arith, h)
    rows_from-found at (malformed ∷ reads) v h = cc
    rows_from-found at (line cs n ∷ reads) v h = elim (Turn-cases (turn p hs (suc at) cs v)) [
      | inl e ↦ rows_from-found n reads v (ground (arith, e, h))
      | inr (inl (x, e)) ↦ turn-found (suc at) cs v (ground (arith, e, h))
      | inr (inr (r, v', e)) ↦ rows_from-found n reads v' (ground (arith, e, h))
    ]

-- Once the headers are accepted, every column that a row's validation reads has a cell: the
-- iteration never ends in a `KeyError`.
pub iter-found :
    (p : Platform) (max_rows : ℕ) (reads : List Read)
    → (iter_sales_rows_v1_csv p max_rows reads).1 ≢ some key_error
unfolding iter_sales_rows_v1_csv validate_sales_headers
iter-found p max_rows [] h = cc
iter-found p max_rows (malformed ∷ reads) h = cc
iter-found p max_rows (line cells n ∷ reads) h =
    elim (Result-cases (validate_sales_headers cells)) [
      | inr (e, f) ↦ ground (arith, f, h)
      | inl (hs, f) ↦ elim (Bool-cases (ltb max_rows 1)) [
        | inl z ↦ ground (arith, f, z, h)
        | inr z ↦
            rows_from-found hs ((validate_sales_headers_iff cells hs).0 f).1 p n reads
              (new_validator max_rows) (ground (arith, f, z, h))
      ]
    ]
