-- ===== src/Intake/Arn.antt =====
-- The form of a KMS key's name in sales_imports/models.py: the beginning that
-- `KMS_KEY_ARN_PATTERN` and `sales_import_kms_key_valid` share, and the latter.
use pharma_intel.Base.{
  ℕ, zero, suc, Bool, true, false, not, ◌&&◌, Option, none, some, [], ◌∷◌, ◌==◌, leb, if◌then◌else◌,
}
use pharma_intel.Base.Text.{Text, codes, is_empty}
use pharma_intel.Queue.Checks.{equals_trim}

-- The text behind a given beginning.
abbrev after_literal : Text → Text → Option Text
after_literal [] s = some s
after_literal (c ∷ l) [] = none
after_literal (c ∷ l) (d ∷ s) = if c == d then after_literal l s else none

-- `[^:]+:`, and the text behind it; `full` tells whether a character was met.
abbrev after_field : Bool → Text → Option Text
after_field full [] = none
after_field full (c ∷ s) = if c == 58 then (if full then some s else none) else after_field true s

-- `[0-9]{n}:`
abbrev after_account : ℕ → Text → Option Text
after_account zero s = after_literal (codes ":") s
after_account (suc n) [] = none
after_account (suc n) (c ∷ s) = if leb 48 c && leb c 57 then after_account n s else none

abbrev and_then : Option Text → (Text → Option Text) → Option Text
and_then none f = none
and_then (some a) f = f a

-- `arn:[^:]+:kms:[^:]+:[0-9]{12}:key/`, and the text behind it.
abbrev pub before_key : Text → Option Text
before_key s =
    and_then
      (and_then
        (and_then
          (and_then (and_then (after_literal (codes "arn:") s) (after_field false))
            (after_literal (codes "kms:")))
          (after_field false))
        (after_account 12))
      (after_literal (codes "key/"))

-- `.+$` behind it.
abbrev pub has_rest : Option Text → Bool
has_rest none = false
has_rest (some t) = not (is_empty t)

-- `sales_import_kms_key_valid`
unfoldable pub kms_key_valid : Option Text → Bool
kms_key_valid none = true
kms_key_valid (some arn) = equals_trim arn && has_rest (before_key arn)
