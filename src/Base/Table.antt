-- ===== src/Base/Table.antt =====
-- A table whose rows carry a key: reading and saving a row by its primary key.
use Prim.Native.Nat.{ℕ, ◌+◌}
use mathlib.Core.Path.{◌≡◌, refl, subst}
use mathlib.Core.Logic.{◌≢◌, inl, inr}
use mathlib.Core.List.{List, [], ◌∷◌, ◌++◌}
use mathlib.Core.Option.{Option, none, some, some-injective}
use mathlib.Core.Bool.{Bool}
use native.Mathlib.Omega.{arith}
use pharma_intel.Base.Tests.{◌==◌, if◌then◌else◌, bit, Bool-cases, ==_iff}
use pharma_intel.Base.Lists.{All, count, find, All-map_of}

module _ {ℓ} {A : Type ℓ} (key : A → ℕ) where
  -- `queryset.get(pk=k)`
  abbrev pub get : ℕ → List A → Option A
  get k [] = none
  get k (x ∷ xs) = if key x == k then some x else get k xs

  -- `row.save()` of a row that is in the table
  abbrev pub put : A → List A → List A
  put a [] = []
  put a (x ∷ xs) = let rest = put a xs in if key x == key a then a ∷ rest else x ∷ rest

  -- No two rows share a key.
  abbrev pub Unique : List A → Type ℓ
  Unique [] = Unit {ℓ}
  Unique (x ∷ xs) = (get (key x) xs ≡ none) × Unique xs

  pub get-key : (k : ℕ) (a : A) (xs : List A) → get k xs ≡ some a → key a ≡ k
  get-key k a [] h = cc
  get-key k a (x ∷ xs) h = ground (arith, get-key k a xs)

  pub get-put_self :
      (a b : A) (xs : List A) → get (key a) xs ≡ some b → get (key a) (put a xs) ≡ some a
  get-put_self a b [] h = cc
  get-put_self a b (x ∷ xs) h = ground (arith, get-put_self a b xs)

  pub get-put_ne : (a : A) (k : ℕ) (xs : List A) → k ≢ key a → get k (put a xs) ≡ get k xs
  get-put_ne a k [] h = refl
  get-put_ne a k (x ∷ xs) h = ground (arith, get-put_ne a k xs)

  pub put-none : (a : A) (k : ℕ) (xs : List A) → get k xs ≡ none → get k (put a xs) ≡ none
  put-none a k [] h = refl
  put-none a k (x ∷ xs) h = ground (arith, put-none a k xs)

  pub put-Unique : (a : A) (xs : List A) → Unique xs → Unique (put a xs)
  put-Unique a [] u = tt
  put-Unique a (x ∷ xs) u = ground (arith, put-Unique a xs u.1, put-none a (key x) xs u.0)

  pub All-put {κ} : (P : A → Type κ) (a : A) (xs : List A) → P a → All P xs → All P (put a xs)
  All-put P a [] p h = tt
  All-put P a (x ∷ xs) p h = elim (Bool-cases (key x == key a)) [
    | inl hit ↦ rw hit (p, All-put P a xs p h.1)
    | inr miss ↦ rw miss (h.0, All-put P a xs p h.1)
  ]

  pub All-get {κ} :
      (P : A → Type κ) (k : ℕ) (a : A) (xs : List A) → get k xs ≡ some a → All P xs → P a
  All-get P k a [] e h = cc
  All-get P k a (x ∷ xs) e h = elim (Bool-cases (key x == k)) [
    | inl hit ↦ subst P (some-injective _ _ (rw hit at e)) h.0
    | inr miss ↦ All-get P k a xs (rw miss at e) h.1
  ]

  pub put-of_none : (a : A) (xs : List A) → get (key a) xs ≡ none → put a xs ≡ xs
  put-of_none a [] h = refl
  put-of_none a (x ∷ xs) h = ground (arith, put-of_none a xs)

  -- Saving one row changes a count by what the row changes.
  pub count-put :
      (q : A → Bool) (a b : A) (xs : List A)
      → Unique xs
      → get (key a) xs ≡ some b
      → count q (put a xs) + bit (q b) ≡ count q xs + bit (q a)
  count-put q a b [] u h = cc
  count-put q a b (x ∷ xs) u h = ground (arith, count-put q a b xs u.1, put-of_none a xs)

  pub get-of_find :
      (p : A → Bool) (a : A) (xs : List A)
      → Unique xs
      → find p xs ≡ some a
      → get (key a) xs ≡ some a
  get-of_find p a [] u h = cc
  get-of_find p a (x ∷ xs) u h = ground (arith, get-of_find p a xs u.1)

  pub get-append_new :
      (k : ℕ) (a : A) (xs : List A)
      → get k (xs ++ a ∷ []) ≡ elim (get k xs) [ none ↦ get k (a ∷ []) | some b ↦ some b ]
  get-append_new k a [] = refl
  get-append_new k a (x ∷ xs) = ground (arith, get-append_new k a xs)

  pub Unique-append_new :
      (a : A) (xs : List A) → Unique xs → get (key a) xs ≡ none → Unique (xs ++ a ∷ [])
  Unique-append_new a [] u h = (refl, tt)
  Unique-append_new a (x ∷ xs) u h =
      ground (arith, Unique-append_new a xs u.1, get-append_new (key x) a xs)

  -- Saving a row as it stands changes nothing.
  pub put-get_self : (a : A) (xs : List A) → Unique xs → get (key a) xs ≡ some a → put a xs ≡ xs
  put-get_self a [] u h = refl
  put-get_self a (x ∷ xs) u h = ground (arith, put-get_self a xs u.1, put-of_none a xs)

  -- Every row is found by its key.
  pub All-stored : (xs : List A) → Unique xs → All (λ x. get (key x) xs ≡ some x) xs
  All-stored [] u = tt
  All-stored (x ∷ xs) u = (
    ground arith,
    All-map_of (λ y. get (key y) xs ≡ some y) (λ y. get (key y) (x ∷ xs) ≡ some y) xs
        (λ y e. later y e) (All-stored xs u.1),
  )
    where
      later : (y : A) → get (key y) xs ≡ some y → get (key y) (x ∷ xs) ≡ some y
      later y e = elim (Bool-cases (key x == key y)) [
        | inl same ↦
            let k : key x ≡ key y = (==_iff (key x) (key y)).0 same in
            let n : get (key y) xs ≡ none = subst (λ (m : ℕ). get m xs ≡ none) k u.0 in cc (n, e)
        | inr other ↦ rw other e
      ]
