-- ===== src/Contract/Fields/Laws.antt =====
-- What a cell without an issue holds.
use pharma_intel.Base.{
  ℕ, ◌≡◌, Bool, true, false, ◌++◌, Option, none, some, List, [], ◌∷◌, leb, ltb, length, arith, refl,
  Bool-cases, inl, inr, Option-cases,
}
use pharma_intel.Base.Text.{Text, is_empty, strip}
use pharma_intel.Base.Date.{Date, is_date}
use pharma_intel.Contract.Fields.{
  Decimal, Platform, SalesRowIssue, DecimalLimits, text_field, date_field, decimal_field,
  contains_control_character, cased, issue_if, date_parts, read_decimal,
}

pub ++-empty {ℓ} : {A : Type ℓ} (xs ys : List A) → xs ++ ys ≡ [] → (xs ≡ []) × (ys ≡ [])
++-empty [] ys h = (refl, h)
++-empty (x ∷ xs) ys h = cc

pub issue_if-empty : (b : Bool) (i : SalesRowIssue) → issue_if b i ≡ [] → b ≡ false
issue_if-empty true i h = cc
issue_if-empty false i h = refl

module _ (p : Platform) (row : ℕ) (column : Text) (max_length : ℕ) (uppercase : Bool)
    (raw : Text) where
  -- A required cell.
  pub text_field-required :
      (text_field p row column true max_length uppercase raw).1 ≡ []
      → ((text_field p row column true max_length uppercase raw).0
          ≡ some (cased p uppercase (strip raw)))
        × (is_empty (strip raw) ≡ false)
        × (leb (length (cased p uppercase (strip raw))) max_length ≡ true)
        × (contains_control_character p (cased p uppercase (strip raw)) ≡ false)
  unfolding text_field
  text_field-required h = elim (Bool-cases (is_empty (strip raw))) [
    | inl e ↦ absurd (ground (arith, h, e))
    | inr e ↦
        let s : issue_if (ltb max_length (length (cased p uppercase (strip raw)))) _
              ++ issue_if (contains_control_character p (cased p uppercase (strip raw))) _
            ≡ [] =
          rw (e, text_field) at h in
        let (a, b) = ++-empty _ _ s in
        (rw e refl, e, ground (arith, issue_if-empty _ _ a), issue_if-empty _ _ b)
  ]

-- What an optional cell is read as.
abbrev pub IsOptional : Platform → ℕ → Bool → Text → Option Text → Type 0
IsOptional p max_length uppercase cell none = is_empty (strip cell) ≡ true
IsOptional p max_length uppercase cell (some value) =
    (is_empty (strip cell) ≡ false)
    × (value ≡ cased p uppercase (strip cell))
    × (leb (length value) max_length ≡ true)
    × (contains_control_character p value ≡ false)

pub text_field-IsOptional :
    (p : Platform) (row : ℕ) (column : Text) (max_length : ℕ) (uppercase : Bool) (raw : Text)
    → (text_field p row column false max_length uppercase raw).1 ≡ []
    → IsOptional p max_length uppercase raw
        ((text_field p row column false max_length uppercase raw).0)
unfolding text_field
text_field-IsOptional p row column max_length uppercase raw h =
    elim (Bool-cases (is_empty (strip raw))) [
      | inl e ↦ rw (e, text_field) e
      | inr e ↦
          let s : issue_if (ltb max_length (length (cased p uppercase (strip raw)))) _
                ++ issue_if (contains_control_character p (cased p uppercase (strip raw))) _
              ≡ [] =
            rw (e, text_field) at h in
          let (a, b) = ++-empty _ _ s in
          let value = cased p uppercase (strip raw) in
          let short : ltb max_length (length value) ≡ false = issue_if-empty _ _ a in
          let plain : contains_control_character p value ≡ false = issue_if-empty _ _ b in
          rw (e, text_field) (e, refl, ground (arith, short), plain)
    ]

pub date_field-found :
    (row : ℕ) (raw : Text)
    → (date_field row raw).1 ≡ []
    → (d : Date) × ((date_field row raw).0 ≡ some d)
      × (date_parts (strip raw) ≡ some d)
      × (is_date d ≡ true)
      × (leb d.year 9998 ≡ true)
unfolding date_field
date_field-found row raw h = elim (Option-cases (date_parts (strip raw))) [
  | inl e ↦ absurd (ground (arith, h, e))
  | inr (d, e) ↦ (d, ground (arith, h, e), e, ground (arith, h, e), ground (arith, h, e))
]

pub decimal_field-found :
    (p : Platform) (row : ℕ) (column : Text) (limits : DecimalLimits) (raw : Text)
    → (decimal_field p row column limits raw).1 ≡ []
    → (d : Decimal) × ((decimal_field p row column limits raw).0 ≡ some d)
      × (read_decimal (strip raw) ≡ some d)
      × (p.decimal_fits limits.max_digits limits.decimal_places d ≡ true)
unfolding decimal_field
decimal_field-found p row column limits raw h = elim (Option-cases (read_decimal (strip raw))) [
  | inl e ↦ absurd (ground (arith, h, e))
  | inr (d, e) ↦ (d, ground (arith, h, e), e, ground (arith, h, e))
]
