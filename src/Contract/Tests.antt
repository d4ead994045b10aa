-- ===== src/Contract/Tests.antt =====
-- A file of two rows, and the theorems of the contract at it. Upper case is that of ASCII letters
-- here, control characters are those below the space, and a decimal fits by its digits before the point.
use pharma_intel.Base.{
  arith, ℕ, ◌-◌, ◌≤◌, ◌<◌, ◌≡◌, ◌≢◌, ◌↔◌, ◌⊎◌, true, ◌&&◌, none, some, List, [], ◌∷◌, leb, ltb,
  false, length, map, refl, ◌+◌, ◌^◌, sym, All, ok, count, if◌then◌else◌,
}
use pharma_intel.Base.Text.{Text, codes, strip, is_empty, text_eq_iff}
use mathlib.Core.List.{reverse, reverse_aux}
use pharma_intel.Base.Date.{Date, is_date, days_in_month}
use pharma_intel.Contract.Headers.{
  key_error, validate_sales_headers, normalized_headers, sales_rows_v1_columns, occurrences,
}
use pharma_intel.Contract.Fields.Dates.{isoformat, date_field-isoformat}
use pharma_intel.Contract.Headers.Laws.{validate_sales_headers_iff}
use pharma_intel.Contract.Fields.{Platform, text_field, date_field, decimal_field}
use pharma_intel.Contract.Cells.{Cells, cell, zip_cells}
use pharma_intel.Contract.Row.{
  SalesRowV1, validate_cells, validate, currency_issues, zero_issues, sign_issues,
}
use pharma_intel.Contract.Row.Laws.{IsAccepted, validate_cells-cases}
use pharma_intel.Contract.File.{Read, line, iter_sales_rows_v1_csv, new_validator}
use pharma_intel.Contract.Staged.{result_checked, Agrees}
use pharma_intel.Queue.Checks.{blank_first}
use pharma_intel.Contract.File.Rows.{row_ids, are_distinct, is_data}
use pharma_intel.Contract.File.Results.{
  iter-distinct, iter-staged, iter-within, iter_complete, iter-found,
}

abbrev ascii_upper : ℕ → ℕ
ascii_upper c = if leb 97 c && leb c 122 then c - 32 else c

abbrev pub platform : Platform
platform = record {
  upper = λ s. map ascii_upper s;
  is_control = λ c. ltb c 32;
  decimal_fits = λ m n d. ltb d.coefficient (10 ^ (m - n + d.places));
}

upper_reverse : (s : Text) → reverse (map ascii_upper s) ≡ map ascii_upper (reverse s)
upper_reverse s = onto s []
  where
    onto :
        (s t : Text)
        → reverse_aux (map ascii_upper s) (map ascii_upper t) ≡ map ascii_upper (reverse_aux s t)
    onto [] t = refl
    onto (c ∷ s) t = onto s (c ∷ t)

upper_blank : (s : Text) → blank_first (map ascii_upper s) ≡ blank_first s
upper_blank [] = refl
upper_blank (c ∷ s) = ground arith

upper_full : (s : Text) → is_empty s ≡ false → is_empty (map ascii_upper s) ≡ false
upper_full [] h = h
upper_full (c ∷ s) h = refl

upper_upper : (s : Text) → map ascii_upper (map ascii_upper s) ≡ map ascii_upper s
upper_upper [] = refl
upper_upper (c ∷ s) =
    let once : ascii_upper (ascii_upper c) ≡ ascii_upper c = ground arith in
    rw (once, upper_upper s) refl

platform-Agrees : Agrees platform platform.upper
platform-Agrees = record {
  upper_full = upper_full;
  upper_trimmed = λ s h. rw (upper_reverse s, upper_blank s, upper_blank (reverse s)) h;
  upper_same = λ s. (text_eq_iff _ _).1 (sym (upper_upper s));
  empty_same = refl;
  quantity_below = λ d h. h;
  revenue_below = λ d h. h;
}

abbrev leap_day : Date
leap_day = record { year = 2024; month = 2; day = 29 }

abbrev first_row : List Text
first_row =
    codes " A-1 "
    ∷ codes "2024-02-29"
    ∷ codes "p1"
    ∷ codes "T1"
    ∷ codes ""
    ∷ codes ""
    ∷ codes "2.5"
    ∷ codes "10"
    ∷ codes "inr"
    ∷ []

abbrev reads : List Read
reads = line first_row 2 ∷ line [] 3 ∷ line first_row 4 ∷ []

abbrev pub whole : List Read
whole = line sales_rows_v1_columns 1 ∷ reads

iter-distinct_example :
    are_distinct [] (row_ids ((iter_sales_rows_v1_csv platform 10 whole).0)) ≡ true
iter-distinct_example = iter-distinct platform 10 whole

iter-staged_example :
    All
      (λ r. result_checked (Platform.upper platform) r ≡ true)
      (iter_sales_rows_v1_csv platform 10 whole).0
iter-staged_example =
    iter-staged platform platform.upper 10 whole platform-Agrees (refl, (refl, (refl, (refl, tt))))

iter-within_example : length ((iter_sales_rows_v1_csv platform 10 whole).0) ≤ 10
iter-within_example = iter-within platform 10 whole

iter_complete_example :
    (length ((iter_sales_rows_v1_csv platform 10 whole).0) ≡ count is_data reads)
    × (0 < count is_data reads)
unfolding iter_sales_rows_v1_csv strip validate_sales_headers validate cell zip_cells
iter_complete_example = iter_complete platform 10 sales_rows_v1_columns 1 reads refl

iter-found_example : (iter_sales_rows_v1_csv platform 10 whole).1 ≢ some key_error
iter-found_example = iter-found platform 10 whole

validate_sales_headers_iff_example :
    (validate_sales_headers sales_rows_v1_columns ≡ ok sales_rows_v1_columns) ↔ (
      (sales_rows_v1_columns ≡ normalized_headers sales_rows_v1_columns)
      × ((h : Text) → occurrences h sales_rows_v1_columns ≡ occurrences h sales_rows_v1_columns))
validate_sales_headers_iff_example =
    validate_sales_headers_iff sales_rows_v1_columns sales_rows_v1_columns

abbrev first_cells : Cells
first_cells = record {
  source_record_id = codes " A-1 ";
  transaction_date = codes "2024-02-29";
  product_code = codes "p1";
  territory_code = codes "T1";
  hospital_code = codes "";
  sales_representative_code = codes "";
  quantity = codes "2.5";
  revenue_amount = codes "10";
  currency_code = codes "inr";
}

validate_cells-cases_example :
    (((validate_cells platform 2 first_cells (new_validator 10)).0).row ≡ none)
      × (((validate_cells platform 2 first_cells (new_validator 10)).0).issues ≢ [])
    ⊎ ((((validate_cells platform 2 first_cells (new_validator 10)).0).issues ≡ [])
        × (r : SalesRowV1) × (((validate_cells platform 2 first_cells (new_validator 10)).0).row
            ≡ some r)
        × (((validate_cells platform 2 first_cells (new_validator 10)).1).source_record_ids
            ≡ r.source_record_id ∷ [])
        × IsAccepted platform first_cells [] r)
validate_cells-cases_example = validate_cells-cases platform 2 first_cells (new_validator 10)

-- The first row is accepted, and the second is refused for its identifier.
two_results :
    map (λ r. row_ids (r ∷ [])) ((iter_sales_rows_v1_csv platform 10 whole).0)
    ≡ (codes "A-1" ∷ []) ∷ [] ∷ []
unfolding iter_sales_rows_v1_csv strip row_ids validate_sales_headers validate cell zip_cells
    text_field date_field is_date days_in_month decimal_field currency_issues zero_issues
    sign_issues
two_results = refl

date_field-isoformat_example : date_field 2 (isoformat leap_day) ≡ (some leap_day, [])
unfolding is_date days_in_month
date_field-isoformat_example = date_field-isoformat 2 leap_day refl (omega arith)
