-- ===== src/Processing/Waiting/Laws.antt =====
-- The lease is renewed while a worker waits for the source lock.
use pharma_intel.Base.{ℕ, ◌+◌, ◌≤◌, List, [], ◌∷◌, arith, map}
use pharma_intel.Processing.Waiting.{Poll, poll_lock, wait_for_lock}

-- Times of which none is more than `gap` after the one before, the first of them after `from`.
abbrev pub AreClose : ℕ → ℕ → List ℕ → Type 0
AreClose gap from [] = Unit
AreClose gap from (t ∷ ts) = (t ≤ from + gap) × AreClose gap t ts

abbrev pub times : List Poll → List ℕ
times polls = map Poll.checked_at polls

poll_lock-AreClose :
    (deadline interval gap renewed last : ℕ) (ps : List Poll)
    → last ≤ renewed + interval
    → AreClose gap last (times ps)
    → AreClose (interval + gap) renewed ((poll_lock deadline interval (renewed + interval) ps).1)
unfolding poll_lock
poll_lock-AreClose deadline interval gap renewed last [] h c = tt
poll_lock-AreClose deadline interval gap renewed last (p ∷ ps) h c =
    let a =
      poll_lock-AreClose deadline interval gap p.checked_at p.checked_at ps (omega arith) c.1 in
    let b = poll_lock-AreClose deadline interval gap renewed p.checked_at ps in
    ground (arith, a, b, c, h)

-- If the polls of the source lock are `gap` apart at most, the first of them that after the start,
-- then so are the renewals of the lease by `interval + gap`, the first of them that after the start:
-- those in the loop, and the one with which a wait ends that gets the lock.
pub wait_for_lock-AreClose :
    (started timeout interval gap : ℕ) (polls : List Poll)
    → AreClose gap started (times polls)
    → AreClose (interval + gap) started ((wait_for_lock started timeout interval polls).1)
unfolding wait_for_lock
wait_for_lock-AreClose started timeout interval gap polls c =
    poll_lock-AreClose (started + timeout) interval gap started started polls (omega arith) c
