-- ===== src/Processing/Facts/Laws.antt =====
-- Lemmas on looking up facts, and on rows that match the fact they become.
use pharma_intel.Base.{
  ℕ, ◌≡◌, refl, Bool, true, Option, none, some, List, [], ◌∷◌, ◌++◌, arith, find,
}
use pharma_intel.Base.Text.{Text, text_eq, text_eq_iff}
use pharma_intel.Contract.Fields.{Decimal}
use pharma_intel.Processing.Issues.{option_eq}
use pharma_intel.Processing.Facts.{StagedRow, fact_matches, new_fact, decimal_eq, is_date_of}

pub text_eq_refl : (s : Text) → text_eq s s ≡ true
text_eq_refl s = (text_eq_iff s s).1 refl

pub find-append {ℓ} :
    {A : Type ℓ} (p : A → Bool) (xs ys : List A)
    → find p (xs ++ ys) ≡ elim (find p xs) [ none ↦ find p ys | some a ↦ some a ]
find-append p [] ys = refl
find-append p (x ∷ xs) ys = ground (arith, find-append p xs ys)

option_eq_refl : (o : Option ℕ) → option_eq o o ≡ true
option_eq_refl none = refl
option_eq_refl (some n) = ground arith

decimal_eq_refl : (d : Decimal) → decimal_eq d d ≡ true
decimal_eq_refl d = ground arith

-- A row whose calendar date is its transaction date matches the fact that it becomes.
pub new_fact-matches :
    (source : Text) (created_by id : ℕ) (row : StagedRow)
    → is_date_of row.calendar_date row.transaction_date ≡ true
    → fact_matches row (new_fact source created_by id row) ≡ true
unfolding fact_matches
new_fact-matches source created_by id row h = ground (
  arith,
  h,
  option_eq_refl row.product,
  option_eq_refl row.territory,
  option_eq_refl row.hospital,
  option_eq_refl row.sales_representative,
  decimal_eq_refl row.quantity,
  decimal_eq_refl row.revenue_amount,
  text_eq_refl row.currency_code,
)
