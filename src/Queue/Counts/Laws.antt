-- ===== src/Queue/Counts/Laws.antt =====
-- The counters that Python accepts are the counters that the database accepts.
use pharma_intel.Base.{◌≡◌, ◌↔◌, true, ok, arith}
use pharma_intel.Base.Int.{◌+ℤ◌}
use pharma_intel.Queue.Counts.{Status, published, Counts, validate_for, counts_checked}

-- `validate_for` accepts the counters of a status exactly when every CHECK constraint of the
-- database on these counters holds for that status.
pub validate_for_iff :
    (s : Status) (c : Counts) → (validate_for s c ≡ ok tt) ↔ (counts_checked s c ≡ true)
unfolding validate_for counts_checked ◌+ℤ◌
validate_for_iff published c = ground arith
validate_for_iff s c = ground arith
