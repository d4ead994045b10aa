-- ===== src/Queue/Invariant/Counting.antt =====
-- How the writes of the queue change the counts of attempts that the invariant speaks of.
use pharma_intel.Base.{
  ℕ, ◌+◌, ◌≡◌, ◌≢◌, refl, Bool, Option, none, some, List, [], ◌∷◌, ◌++◌, map, ◌&&◌, ◌==◌, ltb,
  count, arith, count-append,
}
use pharma_intel.Base.Table.{get, put, Unique, count-put}
use pharma_intel.Queue.Rows.{Attempt, attempt_key, of_job, runs_for, runs_under}
use pharma_intel.Queue.Claim.{expire_if}

abbrev pub numbered_above : ℕ → ℕ → Attempt → Bool
numbered_above k n a = (a.job == k) && ltb n a.attempt_number

-- The counts of one job's attempts agree in two tables.
pub record SameFor (k : ℕ) (xs ys : List Attempt) : Type 0 where
  pub owned : count (of_job k) ys ≡ count (of_job k) xs
  pub numbered : (n : ℕ) → count (numbered_above k n) ys ≡ count (numbered_above k n) xs
  pub running : count (runs_for k) ys ≡ count (runs_for k) xs
  pub held : (t : Option ℕ) → count (runs_under k t) ys ≡ count (runs_under k t) xs

pub append-SameFor :
    (k : ℕ) (a : Attempt) (xs : List Attempt) → a.job ≢ k → SameFor k xs (xs ++ a ∷ [])
append-SameFor k a xs h = record {
  owned = ground (arith, count-append (of_job k) xs (a ∷ []));
  numbered = λ n. ground (arith, count-append (numbered_above k n) xs (a ∷ []));
  running = ground (arith, count-append (runs_for k) xs (a ∷ []));
  held = λ t. ground (arith, count-append (runs_under k t) xs (a ∷ []));
}

pub put-SameFor :
    (k : ℕ) (a b : Attempt) (xs : List Attempt)
    → Unique attempt_key xs
    → get attempt_key a.id xs ≡ some b
    → a.job ≢ k
    → b.job ≢ k
    → SameFor k xs (put attempt_key a xs)
put-SameFor k a b xs u e h g = record {
  owned = ground (arith, count-put attempt_key (of_job k) a b xs u e);
  numbered = λ n. ground (arith, count-put attempt_key (numbered_above k n) a b xs u e);
  running = ground (arith, count-put attempt_key (runs_for k) a b xs u e);
  held = λ t. ground (arith, count-put attempt_key (runs_under k t) a b xs u e);
}

module _ (now pk : ℕ) (token : Option ℕ) where
  abbrev pub expired : List Attempt → List Attempt
  expired = map (expire_if now pk token)

  pub expire-owned :
      (k : ℕ) (xs : List Attempt) → count (of_job k) (expired xs) ≡ count (of_job k) xs
  expire-owned k [] = refl
  expire-owned k (x ∷ xs) = ground (arith, expire-owned k xs)

  pub expire-numbered :
      (k n : ℕ) (xs : List Attempt)
      → count (numbered_above k n) (expired xs) ≡ count (numbered_above k n) xs
  expire-numbered k n [] = refl
  expire-numbered k n (x ∷ xs) = ground (arith, expire-numbered k n xs)

  expire-running :
      (k : ℕ) (xs : List Attempt) → k ≢ pk → count (runs_for k) (expired xs) ≡ count (runs_for k) xs
  expire-running k [] h = refl
  expire-running k (x ∷ xs) h = ground (arith, expire-running k xs h)

  expire-held :
      (k : ℕ) (t : Option ℕ) (xs : List Attempt)
      → k ≢ pk
      → count (runs_under k t) (expired xs) ≡ count (runs_under k t) xs
  expire-held k t [] h = refl
  expire-held k t (x ∷ xs) h = ground (arith, expire-held k t xs h)

  -- The attempts that run under the token no longer run.
  pub expire-ended :
      (xs : List Attempt)
      → count (runs_for pk) (expired xs) + count (runs_under pk token) xs ≡ count (runs_for pk) xs
  expire-ended [] = refl
  expire-ended (x ∷ xs) = ground (arith, expire-ended xs)

  pub get-expired-none :
      (i : ℕ) (xs : List Attempt)
      → get attempt_key i xs ≡ none
      → get attempt_key i (expired xs) ≡ none
  get-expired-none i [] h = refl
  get-expired-none i (x ∷ xs) h = ground (arith, get-expired-none i xs)

  pub expire-Unique : (xs : List Attempt) → Unique attempt_key xs → Unique attempt_key (expired xs)
  expire-Unique [] u = tt
  expire-Unique (x ∷ xs) u = ground (arith, expire-Unique xs u.1, get-expired-none x.id xs u.0)

  pub expire-SameFor : (k : ℕ) (xs : List Attempt) → k ≢ pk → SameFor k xs (expired xs)
  expire-SameFor k xs h = record {
    owned = expire-owned k xs;
    numbered = λ n. expire-numbered k n xs;
    running = expire-running k xs h;
    held = λ t. expire-held k t xs h;
  }
