-- ===== src/Queue/Claim/Selection.antt =====
-- Which job a claim takes, and which jobs the cleanup takes.
use pharma_intel.Base.{
  ℕ, ◌≡◌, refl, Bool, true, false, none, some, List, [], ◌∷◌, arith, inl, inr, Bool-cases, All,
  All-filter, All-of_filter, All-map_of, filter, ◌⊎◌, Option-cases,
}
use mathlib.Core.Path.{subst}
use mathlib.Core.Option.{some-injective}
use pharma_intel.Queue.Rows.{Job}
use pharma_intel.Queue.Claim.{comes_before, insert_job, ordered, next_job, first_job, is_claimable}

comes_before_trans :
    (a b c : Job) → comes_before a b ≡ true → comes_before b c ≡ true → comes_before a c ≡ true
unfolding comes_before
comes_before_trans a b c h k = ground arith

comes_before_total : (a b : Job) → comes_before a b ≡ false → comes_before b a ≡ true
unfolding comes_before
comes_before_total a b h = ground arith

abbrev Leads : Job → List Job → Type 0
Leads a = All (λ b. comes_before a b ≡ true)

abbrev IsOrdered : List Job → Type 0
IsOrdered [] = Unit
IsOrdered (a ∷ as') = Leads a as' × IsOrdered as'

module _ {κ} (P : Job → Type κ) where
  pub All-insert_job : (j : Job) (js : List Job) → P j → All P js → All P (insert_job j js)
  unfolding insert_job
  All-insert_job j [] p h = (p, tt)
  All-insert_job j (k ∷ ks) p h = elim (Bool-cases (comes_before j k)) [
    | inl e ↦ rw e (p, h)
    | inr e ↦ rw e (h.0, All-insert_job j ks p h.1)
  ]

  All-of_insert_job : (j : Job) (js : List Job) → All P (insert_job j js) → P j × All P js
  unfolding insert_job
  All-of_insert_job j [] h = h
  All-of_insert_job j (k ∷ ks) h = elim (Bool-cases (comes_before j k)) [
    | inl e ↦ rw (e, insert_job) at h
    | inr e ↦
        let (q, r) = rw (e, insert_job) at h in let (s, t) = All-of_insert_job j ks r in (s, (q, t))
  ]

  pub All-ordered : (js : List Job) → All P js → All P (ordered js)
  unfolding ordered
  All-ordered [] h = tt
  All-ordered (j ∷ js) h = All-insert_job j (ordered js) h.0 (All-ordered js h.1)

  All-of_ordered : (js : List Job) → All P (ordered js) → All P js
  unfolding ordered
  All-of_ordered [] h = tt
  All-of_ordered (j ∷ js) h =
      let (p, r) = All-of_insert_job j (ordered js) h in (p, All-of_ordered js r)

insert_job-IsOrdered : (j : Job) (js : List Job) → IsOrdered js → IsOrdered (insert_job j js)
unfolding insert_job
insert_job-IsOrdered j [] h = (tt, tt)
insert_job-IsOrdered j (k ∷ ks) h = elim (Bool-cases (comes_before j k)) [
  | inl e ↦ rw e (
    (
      e,
      All-map_of (λ b. comes_before k b ≡ true) (λ b. comes_before j b ≡ true) ks
          (λ b t. comes_before_trans j k b e t) h.0,
    ),
    h,
  )
  | inr e ↦ rw e (
    All-insert_job (λ b. comes_before k b ≡ true) j ks (comes_before_total j k e) h.0,
    insert_job-IsOrdered j ks h.1,
  )
]

ordered-IsOrdered : (js : List Job) → IsOrdered (ordered js)
unfolding ordered
ordered-IsOrdered [] = tt
ordered-IsOrdered (j ∷ js) = insert_job-IsOrdered j (ordered js) (ordered-IsOrdered js)

comes_before_refl : (j : Job) → comes_before j j ≡ true
unfolding comes_before
comes_before_refl j = ground arith

first-Leads : (js : List Job) (j : Job) → IsOrdered js → first_job js ≡ some j → Leads j js
first-Leads [] j o h = cc
first-Leads (k ∷ ks) j o h =
    subst (λ x. Leads x (k ∷ ks)) (some-injective k j h) (comes_before_refl k, o.0)

first-All {κ} :
    (P : Job → Type κ) (js : List Job) (j : Job) → All P js → first_job js ≡ some j → P j
first-All P [] j a h = cc
first-All P (k ∷ ks) j a h = subst P (some-injective k j h) a.0

first-none : (js : List Job) → first_job js ≡ none → js ≡ []
first-none [] h = refl
first-none (k ∷ ks) h = cc

-- What a claim takes is one of the rows that it may take.
pub next_job-All {κ} :
    (P : Job → Type κ) (now : ℕ) (locked : ℕ → Bool) (jobs : List Job) (j : Job)
    → All P jobs
    → next_job now locked jobs ≡ some j
    → P j × (is_claimable now locked j ≡ true)
unfolding next_job
next_job-All P now locked jobs j a h =
    first-All (λ x. P x × (is_claimable now locked x ≡ true)) _ j
      (All-ordered _ _ (All-filter P (is_claimable now locked) jobs a)) h

false_of_not : (b : Bool) → (b ≡ true → ⊥) → b ≡ false
false_of_not true n = absurd (n refl)
false_of_not false n = refl

All-units : (jobs : List Job) → All (λ x. Unit {0}) jobs
All-units [] = tt
All-units (j ∷ js) = (tt, All-units js)

module _ (now : ℕ) (locked : ℕ → Bool) (jobs : List Job) where
  none-All : next_job now locked jobs ≡ none → All (λ k. is_claimable now locked k ≡ false) jobs
  unfolding next_job
  none-All e =
      none-filter jobs
        (All-of_ordered (λ x. ⊥) (filter (is_claimable now locked) jobs) (rw (first-none _ e) tt))
    where
      none-filter :
          (js : List Job)
          → All (λ x. ⊥) (filter (is_claimable now locked) js)
          → All (λ k. is_claimable now locked k ≡ false) js
      none-filter js a =
          All-map_of (λ k. is_claimable now locked k ≡ true → ⊥) _ js
            (λ k n. false_of_not (is_claimable now locked k) n)
            (All-of_filter (λ x. ⊥) (is_claimable now locked) js a)

  some-All :
      (j : Job)
      → next_job now locked jobs ≡ some j
      → All (λ k. is_claimable now locked k ≡ true → comes_before j k ≡ true) jobs
  unfolding next_job
  some-All j e =
      All-of_filter (λ k. comes_before j k ≡ true) (is_claimable now locked) jobs
        (All-of_ordered (λ k. comes_before j k ≡ true) _
          (first-Leads _ j (ordered-IsOrdered (filter (is_claimable now locked) jobs)) e))

-- The claim takes the first claimable row: the row taken is unlocked and eligible, and it comes
-- before every unlocked eligible row in the order of due time, creation and key. It takes none
-- only if no row of the table is claimable.
pub next_job_first :
    (now : ℕ) (locked : ℕ → Bool) (jobs : List Job)
    → ((j : Job) × (next_job now locked jobs ≡ some j)
        × (is_claimable now locked j ≡ true)
        × All (λ k. is_claimable now locked k ≡ true → comes_before j k ≡ true) jobs)
      ⊎ ((next_job now locked jobs ≡ none) × All (λ k. is_claimable now locked k ≡ false) jobs)
next_job_first now locked jobs = elim (Option-cases (next_job now locked jobs)) [
  | inl e ↦ inr (e, none-All now locked jobs e)
  | inr (j, e) ↦ inl (
    j,
    e,
    (next_job-All (λ x. Unit {0}) now locked jobs j (All-units jobs) e).1,
    some-All now locked jobs j e,
  )
]
