-- ===== src/Processing/Resolve/Lookup.antt =====
-- Searches in filtered lists, and the dates of a chunk between the least and the greatest.
use pharma_intel.Base.{
  ℕ, ◌≡◌, refl, Bool, true, false, some, List, [], ◌∷◌, map, any, find, filter, arith, Bool-cases,
  inl, inr, sym, ap,
}
use mathlib.Core.Path.{subst}
use mathlib.Core.List.{Memᴰ}
use pharma_intel.Base.Date.{Date}
use pharma_intel.Processing.Resolve.{
  Assignment, date_le, ends_after, minimum_of, maximum_of, is_for, periods, is_effective,
}

date_le_refl : (a : Date) → date_le a a ≡ true
date_le_refl a = ground arith

pub date_le_trans : (a b c : Date) → date_le a b ≡ true → date_le b c ≡ true → date_le a c ≡ true
date_le_trans a b c h k = ground (arith, h, k)

date_le_total : (a b : Date) → date_le a b ≡ false → date_le b a ≡ true
date_le_total a b h = ground (arith, h)

-- A search that only hits what passes a filter does not need the rest.
pub find-filter {ℓ} :
    {A : Type ℓ} (p q : A → Bool) (xs : List A)
    → ((x : A) → p x ≡ true → q x ≡ true)
    → find p (filter q xs) ≡ find p xs
find-filter p q [] h = refl
find-filter p q (x ∷ xs) h = elim (Bool-cases (q x)) [
  | inl e ↦ ground (arith, e, find-filter p q xs h)
  | inr e ↦ ground (arith, e, h x, find-filter p q xs h)
]

-- The same for the periods of an assignment.
pub is_effective-filter :
    (i t : ℕ) (d : Date) (w : Assignment → Bool) (xs : List Assignment)
    → ((a : Assignment)
        → is_for i t a ≡ true
        → date_le a.effective_from d ≡ true
        → ends_after d a.effective_to ≡ true
        → w a ≡ true)
    → is_effective (periods i t (filter w xs)) d ≡ is_effective (periods i t xs) d
unfolding is_effective periods
is_effective-filter i t d w [] h = refl
is_effective-filter i t d w (a ∷ xs) h =
    let rest = is_effective-filter i t d w xs h in
    elim (Bool-cases (is_for i t a)) [
      | inr e ↦ elim (Bool-cases (w a)) [
        | inl k ↦ ground (arith, e, k, rest)
        | inr k ↦ ground (arith, e, k, rest)
      ]
      | inl e ↦ elim (Bool-cases (w a)) [
        | inl k ↦ ground (arith, e, k, rest)
        | inr k ↦ ground (arith, e, k, rest, h a e)
      ]
    ]

pub any-holds {ℓ} :
    {A : Type ℓ} (p : A → Bool) (x : A) (xs : List A) → Memᴰ x xs → p x ≡ true → any p xs ≡ true
any-holds p x [] m h = elim m [ ]
any-holds p x (y ∷ ys) (Memᴰ.head e) h =
    let k : p y ≡ true = subst (λ z. p z ≡ true) e h in ground (arith, k)
any-holds p x (y ∷ ys) (Memᴰ.tail m) h = ground (arith, any-holds p x ys m h)

pub map-Memᴰ {ℓ κ} :
    {A : Type ℓ} {B : Type κ} (f : A → B) (x : A) (xs : List A) → Memᴰ x xs → Memᴰ (f x) (map f xs)
map-Memᴰ f x [] m = elim m [ ]
map-Memᴰ f x (y ∷ ys) (Memᴰ.head e) = Memᴰ.head (ap f e)
map-Memᴰ f x (y ∷ ys) (Memᴰ.tail m) = Memᴰ.tail (map-Memᴰ f x ys m)

pub filter-Memᴰ {ℓ} :
    {A : Type ℓ} (p : A → Bool) (x : A) (xs : List A)
    → p x ≡ true
    → Memᴰ x xs
    → Memᴰ x (filter p xs)
filter-Memᴰ p x [] h m = elim m [ ]
filter-Memᴰ p x (y ∷ ys) h (Memᴰ.head e) = rw (subst (λ z. p z ≡ true) e h, filter) (Memᴰ.head e)
filter-Memᴰ p x (y ∷ ys) h (Memᴰ.tail m) = elim (Bool-cases (p y)) [
  | inl k ↦ rw (k, filter) (Memᴰ.tail (filter-Memᴰ p x ys h m))
  | inr k ↦ rw (k, filter) (filter-Memᴰ p x ys h m)
]

pub find-Memᴰ {ℓ} :
    {A : Type ℓ} (p : A → Bool) (x : A) (xs : List A) → find p xs ≡ some x → Memᴰ x xs
find-Memᴰ p x [] h = absurd (ground (arith, h))
find-Memᴰ p x (y ∷ ys) h = elim (Bool-cases (p y)) [
  | inl k ↦ Memᴰ.head (ground (arith, h, k))
  | inr k ↦ Memᴰ.tail (find-Memᴰ p x ys (rw k at h))
]

pub minimum_of_le :
    (e d : Date) (ds : List Date) → Memᴰ e (d ∷ ds) → date_le (minimum_of d ds) e ≡ true
unfolding minimum_of
minimum_of_le e d [] (Memᴰ.head q) = subst (λ x. date_le d x ≡ true) (sym q) (date_le_refl d)
minimum_of_le e d [] (Memᴰ.tail m) = elim m [ ]
minimum_of_le e d (x ∷ ds) m =
    let r = minimum_of x ds in
    elim (Bool-cases (date_le d r)) [
      | inl k ↦
          rw (k, minimum_of)
            (elim m [
              | Memᴰ.head q ↦ subst (λ y. date_le d y ≡ true) (sym q) (date_le_refl d)
              | Memᴰ.tail n ↦ date_le_trans d r e k (minimum_of_le e x ds n)
            ])
      | inr k ↦
          rw (k, minimum_of)
            (elim m [
              | Memᴰ.head q ↦ subst (λ y. date_le r y ≡ true) (sym q) (date_le_total d r k)
              | Memᴰ.tail n ↦ minimum_of_le e x ds n
            ])
    ]

pub maximum_of_le :
    (e d : Date) (ds : List Date) → Memᴰ e (d ∷ ds) → date_le e (maximum_of d ds) ≡ true
unfolding maximum_of
maximum_of_le e d [] (Memᴰ.head q) = subst (λ x. date_le x d ≡ true) (sym q) (date_le_refl d)
maximum_of_le e d [] (Memᴰ.tail m) = elim m [ ]
maximum_of_le e d (x ∷ ds) m =
    let r = maximum_of x ds in
    elim (Bool-cases (date_le r d)) [
      | inl k ↦
          rw (k, maximum_of)
            (elim m [
              | Memᴰ.head q ↦ subst (λ y. date_le y d ≡ true) (sym q) (date_le_refl d)
              | Memᴰ.tail n ↦ date_le_trans e r d (maximum_of_le e x ds n) k
            ])
      | inr k ↦
          rw (k, maximum_of)
            (elim m [
              | Memᴰ.head q ↦ subst (λ y. date_le y r ≡ true) (sym q) (date_le_total r d k)
              | Memᴰ.tail n ↦ maximum_of_le e x ds n
            ])
    ]
