-- ===== src/Intake/Evidence.antt =====
-- What the trigger keeps of a file that was received.
use pharma_intel.Base.{ℕ, ◌≡◌, refl, true, false, Option, none, some, ok, arith, ◌∙◌, &&-split}
use pharma_intel.Base.Text.{text_eq, text_eq_iff}
use pharma_intel.Intake.Row.{SalesImport, is_receiving}
use pharma_intel.Intake.Guard.{audit_guard, same_lineage, time_eq, same_evidence}

-- The rows that come of a row by updates that the trigger lets through.
pub data Evolves (start : SalesImport) : SalesImport → Type 0 where
  unchanged : Evolves start start
  updated : {s t : SalesImport} → Evolves start s → audit_guard s t ≡ ok tt → Evolves start t

time_eq_lem : (a b : Option ℕ) → time_eq a b ≡ true → a ≡ b
time_eq_lem none none h = refl
time_eq_lem none (some b) h = cc
time_eq_lem (some a) none h = cc
time_eq_lem (some a) (some b) h = ground (arith, h)

guard_keeps :
    (s t : SalesImport)
    → audit_guard s t ≡ ok tt
    → is_receiving s.status ≡ false
    → (is_receiving t.status ≡ false)
      × (same_evidence s t ≡ true)
      × (text_eq t.sha256 s.sha256 ≡ true)
      × (text_eq t.storage_key s.storage_key ≡ true)
unfolding audit_guard same_lineage
guard_keeps s t h r =
    (ground (arith, h, r), ground (arith, h, r), ground (arith, h, r), ground (arith, h, r))

-- Once a row is no longer receiving, no sequence of updates that the trigger lets through changes
-- what it records of the stored object: the time of receipt, the object's version and key, and the
-- checksum stay, and the row never becomes receiving again.
pub evidence_kept :
    (s t : SalesImport)
    → Evolves s t
    → is_receiving s.status ≡ false
    → (t.received_at ≡ s.received_at)
      × (t.storage_version_id ≡ s.storage_version_id)
      × (t.storage_key ≡ s.storage_key)
      × (t.sha256 ≡ s.sha256)
      × (is_receiving t.status ≡ false)
evidence_kept s t unchanged r = (refl, refl, refl, refl, r)
evidence_kept s t (updated {s = u} e h) r =
    let (a, b, c, d, x) = evidence_kept s u e r in
    let (y, same, sha, key) = guard_keeps u t h x in
    let (received, version) = &&-split _ _ same in
    (
      time_eq_lem _ _ received ∙ a,
      (text_eq_iff _ _).0 version ∙ b,
      (text_eq_iff _ _).0 key ∙ c,
      (text_eq_iff _ _).0 sha ∙ d,
      y,
    )
