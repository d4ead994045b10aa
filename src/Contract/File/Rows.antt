-- ===== src/Contract/File/Rows.antt =====
-- What the generator yields over a whole file, by induction on what the reader gives.
use pharma_intel.Base.{
  ℕ, suc, ◌+◌, ◌≤◌, ◌<◌, ◌≡◌, ◌⊎◌, Bool, true, false, not, ◌&&◌, ◌||◌, none, some, List, [], ◌∷◌,
  leb, length, arith, refl, inl, inr, Option-cases, All, count,
}
use pharma_intel.Base.Text.{Text, text_eq}
use pharma_intel.Contract.Headers.{FileError, is_member}
use pharma_intel.Contract.Fields.{Platform}
use pharma_intel.Contract.Row.{RowResult, Validator}
use pharma_intel.Contract.File.{
  Read, line, malformed, Turn, skipped, raised, yielded, turn, is_blank_row, rows_from,
  mismatch_turn, validate_turn,
}
use pharma_intel.Contract.Staged.{result_checked, Agrees}
use pharma_intel.Contract.File.Laws.{turn-yielded}

pub Turn-cases :
    (t : Turn)
    → (t ≡ skipped)
      ⊎ (((e : FileError) × (t ≡ raised e))
          ⊎ ((r : RowResult) × (v : Validator) × (t ≡ yielded r v)))
Turn-cases skipped = inl refl
Turn-cases (raised e) = inr (inl (e, refl))
Turn-cases (yielded r v) = inr (inr (r, v, refl))

pub turn-skipped :
    (p : Platform) (headers : List Text) (row : ℕ) (cells : List Text) (v : Validator)
    → turn p headers row cells v ≡ skipped
    → is_blank_row cells ≡ true
unfolding turn mismatch_turn validate_turn
turn-skipped p headers row cells v h = ground (arith, h)

-- The identifiers of the valid rows, in order.
unfoldable pub row_ids : List RowResult → List Text
row_ids [] = []
row_ids (r ∷ rs) = elim (RowResult.row r) [
  | none ↦ row_ids rs
  | some x ↦ x.source_record_id ∷ row_ids rs
]

-- Whether texts differ from one another and from those of `seen`.
unfoldable pub are_distinct : List Text → List Text → Bool
are_distinct seen [] = true
are_distinct seen (t ∷ ts) = not (is_member t seen) && are_distinct (t ∷ seen) ts

-- Whether the line numbers that the reader gives are positive.
abbrev pub line_positive : Read → Bool
line_positive (line cells n) = leb 1 n
line_positive malformed = true

-- Whether what is read is a row with a value in it.
unfoldable pub is_data : Read → Bool
is_data (line cells n) = not (is_blank_row cells)
is_data malformed = false

member-cons :
    (t x : Text) (ids : List Text) → is_member t (x ∷ ids) ≡ (text_eq t x || is_member t ids)
unfolding is_member
member-cons t x ids = refl

module _ (p : Platform) (headers : List Text) where
  pub rows_from-distinct :
      (seen : List Text) (at : ℕ) (reads : List Read) (v : Validator)
      → ((t : Text) → is_member t seen ≡ true → is_member t v.source_record_ids ≡ true)
      → are_distinct seen (row_ids ((rows_from p headers at reads v).0)) ≡ true
  unfolding rows_from row_ids are_distinct
  rows_from-distinct seen at [] v m = refl
  rows_from-distinct seen at (malformed ∷ reads) v m = refl
  rows_from-distinct seen at (line cells n ∷ reads) v m =
      elim (Turn-cases (turn p headers (suc at) cells v)) [
        | inl e ↦ rw (e, rows_from) (rows_from-distinct seen n reads v m)
        | inr (inl (x, e)) ↦ rw (e, rows_from) refl
        | inr (inr (r, v', e)) ↦
            let (_, y) = turn-yielded p headers (suc at) cells v r v' e in
            rw (e, rows_from)
              (elim (Option-cases r.row) [
                | inl f ↦
                    rw (f, row_ids) (rows_from-distinct seen n reads v' (λ t h. y.kept t (m t h)))
                | inr (x, f) ↦
                    let (a, b, c) = y.fresh x f in
                    let new : is_member x.source_record_id seen ≡ false =
                      ground (arith, a, m x.source_record_id) in
                    let rest = rows_from-distinct (x.source_record_id ∷ seen) n reads v' (λ t h.
                      rw b (
                        ground (
                          arith,
                          h,
                          m t,
                          member-cons t x.source_record_id seen,
                          member-cons t x.source_record_id v.source_record_ids,
                        ))) in
                    rw (f, row_ids) (ground (arith, new, rest))
              ])
      ]

  pub rows_from-staged :
      (db_upper : Text → Text)
      → Agrees p db_upper
      → (at : ℕ) (reads : List Read) (v : Validator) → leb 1 at ≡ true
      → All (λ d. line_positive d ≡ true) reads
      → All (λ r. result_checked db_upper r ≡ true) (rows_from p headers at reads v).0
  unfolding rows_from result_checked
  rows_from-staged db_upper agree at [] v k h = tt
  rows_from-staged db_upper agree at (malformed ∷ reads) v k h = tt
  rows_from-staged db_upper agree at (line cells n ∷ reads) v k h =
      elim (Turn-cases (turn p headers (suc at) cells v)) [
        | inl e ↦ rw (e, rows_from) (rows_from-staged db_upper agree n reads v h.0 h.1)
        | inr (inl (x, e)) ↦ rw (e, rows_from) tt
        | inr (inr (r, v', e)) ↦
            let (_, y) = turn-yielded p headers (suc at) cells v r v' e in
            let good : result_checked db_upper r ≡ true = elim (Option-cases r.row) [
              | inl f ↦ rw (f, result_checked) refl
              | inr (x, f) ↦
                  let (a, b, c) = y.fresh x f in
                  rw (f, result_checked) (rw y.numbered (c db_upper agree (ground (arith, k))))
            ] in
            rw (e, rows_from) (good, rows_from-staged db_upper agree n reads v' h.0 h.1)
      ]

  pub rows_from-within :
      (at : ℕ) (reads : List Read) (v : Validator)
      → v.row_count ≤ v.max_rows
      → v.row_count + length ((rows_from p headers at reads v).0) ≤ v.max_rows
  unfolding rows_from
  rows_from-within at [] v h = omega (arith, h)
  rows_from-within at (malformed ∷ reads) v h = omega (arith, h)
  rows_from-within at (line cells n ∷ reads) v h =
      elim (Turn-cases (turn p headers (suc at) cells v)) [
        | inl e ↦ rw (e, rows_from) (rows_from-within n reads v h)
        | inr (inl (x, e)) ↦ rw (e, rows_from) (omega (arith, h))
        | inr (inr (r, v', e)) ↦
            let (_, y) = turn-yielded p headers (suc at) cells v r v' e in
            rw (e, rows_from)
              (ground (arith, y.counted, y.limit, y.within, rows_from-within n reads v'))
      ]

  pub rows_from_complete :
      (at : ℕ) (reads : List Read) (v : Validator)
      → (rows_from p headers at reads v).1 ≡ none
      → (length ((rows_from p headers at reads v).0) ≡ count is_data reads)
        × (0 < v.row_count + length ((rows_from p headers at reads v).0))
  unfolding rows_from is_data
  rows_from_complete at [] v h = ground (arith, h)
  rows_from_complete at (malformed ∷ reads) v h = cc
  rows_from_complete at (line cells n ∷ reads) v h =
      elim (Turn-cases (turn p headers (suc at) cells v)) [
        | inl e ↦
            let b = turn-skipped p headers (suc at) cells v e in
            let g : (rows_from p headers n reads v).1 ≡ none = ground (arith, e, h) in
            rw (e, rows_from) (ground (arith, b, rows_from_complete n reads v g))
        | inr (inl (x, e)) ↦ absurd (ground (arith, e, h))
        | inr (inr (r, v', e)) ↦
            let (b, y) = turn-yielded p headers (suc at) cells v r v' e in
            let g : (rows_from p headers n reads v').1 ≡ none = ground (arith, e, h) in
            rw (e, rows_from) (ground (arith, b, y.counted, rows_from_complete n reads v' g))
      ]
