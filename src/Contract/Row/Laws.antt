-- ===== src/Contract/Row/Laws.antt =====
-- What the rows that the contract accepts satisfy.
use pharma_intel.Base.{
  ℕ, ◌≡◌, true, false, Option, none, some, List, [], ◌∷◌, leb, length, arith, refl, inl, inr, All,
  ◌≢◌, ◌⊎◌, ap,
}
use pharma_intel.Base.Text.{Text, codes, is_empty, strip, strip-strip}
use pharma_intel.Base.Date.{Date, is_date}
use pharma_intel.Contract.Headers.{is_member}
use pharma_intel.Contract.Fields.{
  Decimal, Platform, SalesRowIssue, quantity_limits, revenue_limits, contains_control_character,
  date_parts, read_decimal,
}
use pharma_intel.Contract.Fields.Laws.{
  ++-empty, issue_if-empty, text_field-required, text_field-IsOptional, IsOptional,
  date_field-found, decimal_field-found,
}
use pharma_intel.Contract.Cells.{Cells}
use pharma_intel.Contract.Row.{
  SalesRowV1, Validator, validate_cells, row_unless, row_of, currency_issues, zero_issues,
  sign_issues, note_id, is_currency, is_zero, signs_differ, is_ascii, issues_of, issue_parts,
  append_all, parse_cells, Parsed, parsed_row,
}

row_unless-some :
    (is : List SalesRowIssue) (o : Option SalesRowV1) (r : SalesRowV1)
    → row_unless is o ≡ some r
    → (is ≡ []) × (o ≡ some r)
row_unless-some [] o r h = (refl, h)
row_unless-some (i ∷ is) o r h = cc

-- What the cells of an accepted row hold, and what became of them.
pub record IsAccepted (p : Platform) (cells : Cells) (ids : List Text) (r : SalesRowV1)
    : Type 0 where
  pub id_cell : r.source_record_id ≡ strip cells.source_record_id
  pub id_full : is_empty r.source_record_id ≡ false
  pub id_short : leb (length r.source_record_id) 255 ≡ true
  pub id_plain : contains_control_character p r.source_record_id ≡ false
  pub id_new : is_member r.source_record_id ids ≡ false
  pub date_cell : date_parts (strip cells.transaction_date) ≡ some r.transaction_date
  pub date_real : is_date r.transaction_date ≡ true
  pub date_early : leb (Date.year r.transaction_date) 9998 ≡ true
  pub product_given : is_empty (strip cells.product_code) ≡ false
  pub product_cell : r.product_code ≡ p.upper (strip cells.product_code)
  pub product_short : leb (length r.product_code) 64 ≡ true
  pub product_plain : contains_control_character p r.product_code ≡ false
  pub territory_given : is_empty (strip cells.territory_code) ≡ false
  pub territory_cell : r.territory_code ≡ p.upper (strip cells.territory_code)
  pub territory_short : leb (length r.territory_code) 64 ≡ true
  pub territory_plain : contains_control_character p r.territory_code ≡ false
  pub hospital_cell : IsOptional p 64 true cells.hospital_code r.hospital_code
  pub representative_cell :
      IsOptional p 64 true cells.sales_representative_code r.sales_representative_code
  pub quantity_cell : read_decimal (strip cells.quantity) ≡ some r.quantity
  pub quantity_fits : p.decimal_fits 18 3 r.quantity ≡ true
  pub quantity_nonzero : is_zero r.quantity ≡ false
  pub revenue_cell : read_decimal (strip cells.revenue_amount) ≡ some r.revenue_amount
  pub revenue_fits : p.decimal_fits 20 4 r.revenue_amount ≡ true
  pub signs_agree : signs_differ r.quantity r.revenue_amount ≡ false
  pub currency_cell : r.currency_code ≡ p.upper (strip cells.currency_code)
  pub currency_ascii : is_ascii (strip cells.currency_code) ≡ true
  pub currency_letters : is_currency r.currency_code ≡ true

row_unless-none :
    (is : List SalesRowIssue) (o : Option SalesRowV1) → is ≢ [] → row_unless is o ≡ none
row_unless-none [] o n = absurd (n refl)
row_unless-none (i ∷ is) o n = refl

empty_or_not : (is : List SalesRowIssue) → (is ≡ []) ⊎ (is ≢ [])
empty_or_not [] = inl refl
empty_or_not (i ∷ is) = inr (λ e. cc)

append_all-empty :
    (parts : List (List SalesRowIssue)) → append_all parts ≡ [] → All (λ is. is ≡ []) parts
unfolding append_all
append_all-empty [] h = tt
append_all-empty (is ∷ parts) h =
    let (a, b) = ++-empty is (append_all parts) h in (a, append_all-empty parts b)

-- The checks across cells, where they find nothing.
module _ (row : ℕ) where
  currency_issues-empty :
      (raw code : Text) (o : Option Text)
      → o ≡ some code
      → currency_issues row raw o ≡ []
      → (is_ascii raw ≡ true) × (is_currency code ≡ true)
  unfolding currency_issues
  currency_issues-empty raw code none e h = cc
  currency_issues-empty raw code (some x) e h = (ground (arith, e, h), ground (arith, e, h))

  zero_issues-empty :
      (q : Decimal) (o : Option Decimal) → o ≡ some q → zero_issues row o ≡ [] → is_zero q ≡ false
  unfolding zero_issues
  zero_issues-empty q none e h = cc
  zero_issues-empty q (some x) e h = ground (arith, e, h)

  sign_issues-empty :
      (q r : Decimal) (o u : Option Decimal)
      → o ≡ some q
      → u ≡ some r
      → sign_issues row o u ≡ []
      → signs_differ q r ≡ false
  unfolding sign_issues
  sign_issues-empty q r o u e f h = issue_if-empty (signs_differ q r) _ (rw (e, f) at h)

  note_id-new :
      (id : Text) (ids : List Text) (o : Option Text)
      → o ≡ some id
      → (note_id row o ids).0 ≡ []
      → (is_member id ids ≡ false) × ((note_id row o ids).1 ≡ id ∷ ids)
  unfolding note_id
  note_id-new id ids none e h = cc
  note_id-new id ids (some x) e h = (ground (arith, e, h), ground (arith, e, h))

row_of-some :
    (f : Parsed) (r : SalesRowV1)
    → f.source_record_id.0 ≡ some r.source_record_id
    → f.transaction_date.0 ≡ some r.transaction_date
    → f.product_code.0 ≡ some r.product_code
    → f.territory_code.0 ≡ some r.territory_code
    → f.hospital_code.0 ≡ r.hospital_code
    → f.representative_code.0 ≡ r.sales_representative_code
    → f.quantity.0 ≡ some r.quantity
    → f.revenue_amount.0 ≡ some r.revenue_amount
    → f.currency_code.0 ≡ some r.currency_code
    → row_of f ≡ some r
unfolding row_of parsed_row
row_of-some f r e0 e1 e2 e3 e4 e5 e6 e7 e8 = rw (e0, e1, e2, e3, e4, e5, e6, e7, e8) refl

module _ (p : Platform) (row : ℕ) (cells : Cells) (v : Validator) where
  -- A row without issues.
  pub no_issues-IsAccepted :
      issues_of p row cells v.source_record_ids ≡ []
      → (r : SalesRowV1) × (row_of (parse_cells p row cells) ≡ some r)
        × ((note_id row ((parse_cells p row cells).source_record_id.0) v.source_record_ids).1
            ≡ r.source_record_id ∷ v.source_record_ids)
        × IsAccepted p cells v.source_record_ids r
  unfolding issues_of parse_cells row_of currency_issues zero_issues sign_issues note_id
  no_issues-IsAccepted h =
      let (i0, (i1, (i2, (i3, (i4, (i5, (i6, (i7, (i8, (ic, (iz, (is, (ih, _))))))))))))) =
        append_all-empty
          (issue_parts row (strip cells.currency_code) (parse_cells p row cells)
            v.source_record_ids)
          h in
      let (a0, a1, a2, a3) =
        text_field-required p row (codes "source_record_id") 255 false cells.source_record_id i0 in
      let (date, d0, d1, d2, d3) = date_field-found row cells.transaction_date i1 in
      let (b0, b1, b2, b3) =
        text_field-required p row (codes "product_code") 64 true cells.product_code i2 in
      let (c0, c1, c2, c3) =
        text_field-required p row (codes "territory_code") 64 true cells.territory_code i3 in
      let (q, q0, q1, q2) =
        decimal_field-found p row (codes "quantity") quantity_limits cells.quantity i6 in
      let (m, m0, m1, m2) =
        decimal_field-found p row (codes "revenue_amount") revenue_limits cells.revenue_amount i7 in
      let (e0, e1, e2, e3) =
        text_field-required p row (codes "currency_code") 3 true (strip cells.currency_code) i8 in
      let (n0, n1) =
        note_id-new row (strip cells.source_record_id) v.source_record_ids
          ((parse_cells p row cells).source_record_id.0) a0 ih in
      let (k0, k1) =
        currency_issues-empty row (strip cells.currency_code) _
          ((parse_cells p row cells).currency_code.0) e0 ic in
      let r : SalesRowV1 = record {
        source_record_id = strip cells.source_record_id;
        transaction_date = date;
        product_code = p.upper (strip cells.product_code);
        territory_code = p.upper (strip cells.territory_code);
        hospital_code = (parse_cells p row cells).hospital_code.0;
        sales_representative_code = (parse_cells p row cells).representative_code.0;
        quantity = q;
        revenue_amount = m;
        currency_code = p.upper (strip (strip cells.currency_code));
      } in
      (
        r,
        row_of-some (parse_cells p row cells) r a0 d0 b0 c0 refl refl q0 m0 e0,
        n1,
        record {
          id_cell = refl;
          id_full = a1;
          id_short = a2;
          id_plain = a3;
          id_new = n0;
          date_cell = d1;
          date_real = d2;
          date_early = d3;
          product_given = b1;
          product_cell = refl;
          product_short = b2;
          product_plain = b3;
          territory_given = c1;
          territory_cell = refl;
          territory_short = c2;
          territory_plain = c3;
          hospital_cell =
              text_field-IsOptional p row (codes "hospital_code") 64 true cells.hospital_code i4;
          representative_cell =
              text_field-IsOptional p row (codes "sales_representative_code") 64 true
                cells.sales_representative_code i5;
          quantity_cell = q1;
          quantity_fits = q2;
          quantity_nonzero = zero_issues-empty row q _ q0 iz;
          revenue_cell = m1;
          revenue_fits = m2;
          signs_agree = sign_issues-empty row q m _ _ q0 m0 is;
          currency_cell = ap p.upper (strip-strip cells.currency_code);
          currency_ascii = k0;
          currency_letters = k1;
        },
      )

  -- A validated row has issues and no value, or it has no issue and a value. Then the fields of
  -- the value are what the cells hold, trimmed, the codes and the currency in upper case: the
  -- hospital and the representative are absent exactly if their cells are blank, and the cells of
  -- the identifier, the product and the territory are not blank. The identifier is new and
  -- remembered; it has 255 characters at most and each code 64, without control characters; the
  -- date is a real one up to the year 9998; the decimals fit, the quantity is not zero, and the signs
  -- are not opposite; the currency's cell is ASCII, and its value is three capitals.
  pub validate_cells-cases :
      (((validate_cells p row cells v).0).row ≡ none)
        × (((validate_cells p row cells v).0).issues ≢ [])
      ⊎ ((((validate_cells p row cells v).0).issues ≡ [])
          × (r : SalesRowV1) × (((validate_cells p row cells v).0).row ≡ some r)
          × (((validate_cells p row cells v).1).source_record_ids
              ≡ r.source_record_id ∷ v.source_record_ids)
          × IsAccepted p cells v.source_record_ids r)
  unfolding validate_cells
  validate_cells-cases = elim (empty_or_not (issues_of p row cells v.source_record_ids)) [
    | inl e ↦ let (r, f, n, a) = no_issues-IsAccepted e in inr (e, r, rw e f, n, a)
    | inr e ↦ inl (row_unless-none _ _ e, e)
  ]
