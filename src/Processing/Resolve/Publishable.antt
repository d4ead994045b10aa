-- ===== src/Processing/Resolve/Publishable.antt =====
-- Rows that the validation loop of `_publish_once` counts no issue for are published by the loop
-- that follows it.
use pharma_intel.Base.{◌≡◌, false, List, [], ◌∷◌, All}
use pharma_intel.Base.Text.{Text, text_eq}

abbrev Differ : List Text → Type 0
Differ [] = Unit
Differ (t ∷ ts) = All (λ s. text_eq t s ≡ false) ts × Differ ts
