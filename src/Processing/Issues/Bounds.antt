-- ===== src/Processing/Issues/Bounds.antt =====
-- How many issues an attempt stores, over every sequence of calls of its collector.
use pharma_intel.Base.{
  ℕ, ◌+◌, ◌≡◌, ◌≢◌, List, [], ◌∷◌, ◌++◌, ltb, length, arith, min, length-append, Bool-cases, inl,
  inr, refl, sym, ◌∙◌,
}
use pharma_intel.Queue.Rows.{Issue}
use pharma_intel.Processing.Issues.{
  IssueCollector, new_collector, detail_limit, Report, add, is_known, identity_of, drained,
  persisted, stored_issue, summary,
}

-- A call of `add`, or of `drain` by a caller that stores what it is given.
pub data Call : Type 0 where
  adding : Report → Call
  draining : Call

-- The collector after some calls, and the issues that were stored on the way.
unfoldable pub run_calls : List Call → IssueCollector → List Issue × IssueCollector
run_calls [] c = ([], c)
run_calls (adding r ∷ calls) c = run_calls calls (add r c)
run_calls (draining ∷ calls) c =
    let rest = run_calls calls (drained c) in (c.issues ++ rest.0, rest.1)

-- All that is stored once `persisted` is called in the end.
unfoldable pub stored_by : List Call → IssueCollector → List Issue
unfolding run_calls persisted
stored_by calls c = let r = run_calls calls c in r.0 ++ (persisted r.1).0

-- What the counters of a collector mean, where `n` issues are stored already.
record Fits (n : ℕ) (c : IssueCollector) : Type 0 where
  details : n + length c.issues ≡ c.detail_count
  limited : c.detail_count ≡ min c.total (detail_limit c.maximum)
  cut : c.truncated ≡ ltb (detail_limit c.maximum) c.total

add-Fits : (r : Report) (n : ℕ) (c : IssueCollector) → Fits n c → Fits n (add r c)
unfolding add
add-Fits r n c f = elim (Bool-cases (is_known (identity_of r) c)) [
  | inl old ↦ rw old f
  | inr new ↦ elim (Bool-cases (ltb c.detail_count (detail_limit c.maximum))) [
    | inl room ↦
        rw (new, room)
          record {
            details =
                ground
                  (arith, f.details, length-append c.issues (stored_issue c.attempt_id r ∷ []));
            limited = ground (arith, f.limited, room);
            cut = ground (arith, f.cut, f.limited, room);
          }
    | inr full ↦
        rw (new, full)
          record {
            details = f.details;
            limited = ground (arith, f.limited, full);
            cut = ground (arith, f.cut, f.limited, full);
          }
  ]
]

add-maximum : (r : Report) (c : IssueCollector) → (add r c).maximum ≡ c.maximum
unfolding add
add-maximum r c = ground arith

run_calls-Fits :
    (calls : List Call) (n : ℕ) (c : IssueCollector)
    → Fits n c
    → Fits (n + length ((run_calls calls c).0)) (run_calls calls c).1
unfolding run_calls
run_calls-Fits [] n c f = record {
  details = omega (arith, f.details);
  limited = f.limited;
  cut = f.cut;
}
run_calls-Fits (adding r ∷ calls) n c f = run_calls-Fits calls n (add r c) (add-Fits r n c f)
run_calls-Fits (draining ∷ calls) n c f =
    let g : Fits (n + length c.issues) (drained c) = record {
      details = omega (arith, f.details);
      limited = f.limited;
      cut = f.cut;
    } in
    let h = run_calls-Fits calls (n + length c.issues) (drained c) g in
    let l = length-append c.issues ((run_calls calls (drained c)).0) in
    record { details = omega (arith, h.details, l); limited = h.limited; cut = h.cut }

run_calls-maximum :
    (calls : List Call) (c : IssueCollector) → ((run_calls calls c).1).maximum ≡ c.maximum
unfolding run_calls
run_calls-maximum [] c = refl
run_calls-maximum (adding r ∷ calls) c = run_calls-maximum calls (add r c) ∙ add-maximum r c
run_calls-maximum (draining ∷ calls) c = run_calls-maximum calls (drained c)

persisted-length :
    (n : ℕ) (c : IssueCollector)
    → Fits n c
    → c.maximum ≢ 1
    → n + length ((persisted c).0) ≡ min c.total c.maximum
unfolding persisted
persisted-length n c f h =
    ground (arith, f.details, f.limited, f.cut, h, length-append c.issues (summary c ∷ []))

-- Whatever is added and drained, and in whatever order, an attempt stores as many issues as were
-- counted, or the maximum if that is less. The maximum is any number but 1.
pub length-stored_by :
    (calls : List Call) (attempt maximum : ℕ)
    → maximum ≢ 1
    → length (stored_by calls (new_collector attempt maximum))
      ≡ min ((run_calls calls (new_collector attempt maximum)).1).total maximum
unfolding stored_by
length-stored_by calls attempt maximum h =
    let c = new_collector attempt maximum in
    let start : Fits 0 c = record { details = refl; limited = ground arith; cut = ground arith } in
    let f = run_calls-Fits calls 0 c start in
    let d = (run_calls calls c).1 in
    let m : d.maximum ≡ maximum = run_calls-maximum calls c in
    let p = persisted-length (0 + length ((run_calls calls c).0)) d f (λ e. h (sym m ∙ e)) in
    let l = length-append ((run_calls calls c).0) ((persisted d).0) in omega (arith, p, l, m)
