-- ===== src/Base/Lists.antt =====
-- Lists measured by native numbers, under the library's names, and a predicate on every element.
use Prim.Native.Nat.{ℕ, zero, suc, ◌+◌}
use mathlib.Core.Path.{◌≡◌, refl, sym, ◌∙◌}
use mathlib.Core.List.{List, [], ◌∷◌, ◌++◌}
use mathlib.Core.Option.{Option, none, some}
use mathlib.Core.Bool.{Bool, true, false, ◌&&◌, ◌||◌, false≢true}
use mathlib.Core.Logic.{inl, inr}
use native.Mathlib.Omega.{arith}
use pharma_intel.Base.Tests.{if◌then◌else◌, bit, Bool-cases}

module _ {ℓ} {A : Type ℓ} where
  abbrev pub length : List A → ℕ
  length [] = 0
  length (x ∷ xs) = suc (length xs)

  abbrev pub take : ℕ → List A → List A
  take zero xs = []
  take (suc n) [] = []
  take (suc n) (x ∷ xs) = x ∷ take n xs

  abbrev pub All {κ} : (A → Type κ) → List A → Type κ
  All P [] = Unit
  All P (x ∷ xs) = P x × All P xs

  abbrev pub any : (A → Bool) → List A → Bool
  any p [] = false
  any p (x ∷ xs) = p x || any p xs

  abbrev pub all : (A → Bool) → List A → Bool
  all p [] = true
  all p (x ∷ xs) = p x && all p xs

  -- `queryset.filter(test)`
  abbrev pub filter : (A → Bool) → List A → List A
  filter p [] = []
  filter p (x ∷ xs) = let rest = filter p xs in if p x then x ∷ rest else rest

  -- `queryset.filter(test).count()`
  abbrev pub count : (A → Bool) → List A → ℕ
  count p [] = 0
  count p (x ∷ xs) = bit (p x) + count p xs

  -- `queryset.filter(test).first()`
  abbrev pub find : (A → Bool) → List A → Option A
  find p [] = none
  find p (x ∷ xs) = if p x then some x else find p xs

  pub length-append : (xs ys : List A) → length (xs ++ ys) ≡ length xs + length ys
  length-append [] ys = omega arith
  length-append (x ∷ xs) ys = omega (arith, length-append xs ys)

  pub All-append {κ} : (P : A → Type κ) (xs ys : List A) → All P xs → All P ys → All P (xs ++ ys)
  All-append P [] ys h k = k
  All-append P (x ∷ xs) ys h k = (h.0, All-append P xs ys h.1 k)

  pub count-append : (p : A → Bool) (xs ys : List A) → count p (xs ++ ys) ≡ count p xs + count p ys
  count-append p [] ys = omega arith
  count-append p (x ∷ xs) ys = omega (arith, count-append p xs ys)

  pub find-holds : (p : A → Bool) (a : A) (xs : List A) → find p xs ≡ some a → p a ≡ true
  find-holds p a [] h = cc
  find-holds p a (x ∷ xs) h = ground (arith, find-holds p a xs)

  pub find-none : (p : A → Bool) (xs : List A) → find p xs ≡ none → count p xs ≡ 0
  find-none p [] h = refl
  find-none p (x ∷ xs) h = ground (arith, find-none p xs)

module _ {ℓ κ} {A : Type ℓ} (P : A → Type κ) (p : A → Bool) where
  -- What passes a filter satisfies its test.
  pub All-filter : (xs : List A) → All P xs → All (λ x. P x × (p x ≡ true)) (filter p xs)
  All-filter [] h = tt
  All-filter (x ∷ xs) h = elim (Bool-cases (p x)) [
    | inl e ↦ rw e ((h.0, e), All-filter xs h.1)
    | inr e ↦ rw e (All-filter xs h.1)
  ]

  -- What holds of all that pass a filter holds of every element that satisfies its test.
  pub All-of_filter : (xs : List A) → All P (filter p xs) → All (λ x. p x ≡ true → P x) xs
  All-of_filter [] h = tt
  All-of_filter (x ∷ xs) h = elim (Bool-cases (p x)) [
    | inl e ↦ let (q, r) = rw e at h in ((λ _. q), All-of_filter xs r)
    | inr e ↦ ((λ t. absurd (false≢true (sym e ∙ t))), All-of_filter xs (rw e at h))
  ]

module _ {ℓ κ} {A : Type ℓ} (P : A → Type κ) where
  pub All-take : (n : ℕ) (xs : List A) → All P xs → All P (take n xs)
  All-take zero xs h = tt
  All-take (suc n) [] h = tt
  All-take (suc n) (x ∷ xs) h = (h.0, All-take n xs h.1)

  pub All-map_of {λ'} :
      (Q : A → Type λ') (xs : List A) → ((x : A) → P x → Q x) → All P xs → All Q xs
  All-map_of Q [] f h = tt
  All-map_of Q (x ∷ xs) f h = (f x h.0, All-map_of Q xs f h.1)
