-- ===== src/Queue/Delay/Laws.antt =====
-- The retry delay against its closed form.
use native.Mathlib.Nat.{pow-suc}
use pharma_intel.Base.{
  ℕ, zero, suc, ◌-◌, ◌*◌, ◌^◌, ◌≤◌, ◌<◌, min, ◌≡◌, refl, ok, arith, leb, Bool-cases, inl, inr,
  leb→le, ◌∙◌,
}
use pharma_intel.Base.Int.{pos}
use pharma_intel.Queue.Delay.{double_until, retry_delay}

pow-pos : (n : ℕ) → 1 ≤ 2 ^ n
pow-pos zero = omega arith
pow-pos (suc n) = rw (pow-suc 2 n) (omega (arith, pow-pos n))

capped : (n d m : ℕ) → m ≤ d → min (d * 2 ^ n) m ≡ m
capped n d m h = grind (arith, pow-pos n)

regroup : (n d m : ℕ) → min (min (d * 2) m * 2 ^ n) m ≡ min (d * 2 ^ suc n) m
regroup n d m = elim (Bool-cases (leb (d * 2) m)) [
  | inl below ↦ let e : min (d * 2) m ≡ d * 2 = ground arith in rw (e, pow-suc 2 n) (grind arith)
  | inr above ↦
      let e : min (d * 2) m ≡ m = ground arith in
      rw (e, capped n m m (omega arith)) (grind (arith, capped n (d * 2) m, pow-suc 2 n))
]

-- A delay within the maximum is doubled once for each round, up to the maximum.
double_until-eq : (n d m : ℕ) → d ≤ m → double_until n d m ≡ min (d * 2 ^ n) m
unfolding double_until
double_until-eq zero d m h = omega arith
double_until-eq (suc n) d m h = elim (Bool-cases (leb m d)) [
  | inl top ↦
      rw (top, double_until) (omega (arith, capped (suc n) d m (ground arith), leb→le m d top))
  | inr low ↦
      rw (low, double_until) (double_until-eq n (min (d * 2) m) m (omega arith) ∙ regroup n d m)
]

cap_base : (n b m : ℕ) → min (min b m * 2 ^ n) m ≡ min (b * 2 ^ n) m
cap_base n b m = elim (Bool-cases (leb b m)) [
  | inl below ↦ let e : min b m ≡ b = ground arith in rw e refl
  | inr above ↦
      let e : min b m ≡ m = ground arith in
      rw (e, capped n m m (omega arith)) (grind (arith, capped n b m))
]

-- For every attempt number from one on and positive delays, the retry delay is
-- `base * 2 ** (attempt_count - 1)` microseconds, capped at the maximum delay.
pub retry_delay-eq :
    (n b m : ℕ) → 0 < b → 0 < m → retry_delay (pos (suc n)) (pos b) (pos m) ≡ ok (min (b * 2 ^ n) m)
unfolding retry_delay
retry_delay-eq n zero m hb hm = elim hb [ ]
retry_delay-eq n (suc b) zero hb hm = elim hm [ ]
retry_delay-eq n (suc b) (suc m) hb hm =
    let e : suc n - 1 ≡ n = omega arith in
    let d : double_until n (min (suc b) (suc m)) (suc m) ≡ min (suc b * 2 ^ n) (suc m) =
      double_until-eq n _ _ (omega arith) ∙ cap_base n (suc b) (suc m) in
    ground (arith, d, e)
