-- ===== src/Processing/Issues.antt =====
-- `_IssueCollector` of sales_imports/processing.py, which counts every issue of an attempt and keeps
-- a bounded number of them to be stored.
pub mod Bounds
use pharma_intel.Base.{
  ℕ, zero, suc, ◌+◌, ◌-◌, ◌/◌, ◌%◌, Bool, true, false, ◌&&◌, Option, none, some, List, [], ◌∷◌,
  ◌++◌, ◌==◌, ltb, any, if◌then◌else◌,
}
use pharma_intel.Base.Text.{Text, codes, text_eq}
use pharma_intel.Queue.Rows.{Issue, IssuePhase, contract}

-- `(row_number, column, code)`
pub record Identity : Type 0 where
  pub row_number : Option ℕ
  pub column : Text
  pub code : Text

abbrev pub option_eq : Option ℕ → Option ℕ → Bool
option_eq none none = true
option_eq (some a) (some b) = a == b
option_eq _ _ = false

unfoldable pub identity_eq : Identity → Identity → Bool
identity_eq a b =
    option_eq a.row_number b.row_number && text_eq a.column b.column && text_eq a.code b.code

-- The set of pending identities is a list; `last_phase` is the phase of the issue added last.
pub record IssueCollector : Type 0 where
  pub attempt_id : ℕ
  pub maximum : ℕ
  pub total : ℕ
  pub issues : List Issue
  pub pending_identities : List Identity
  pub detail_count : ℕ
  pub last_phase : IssuePhase
  pub truncated : Bool

abbrev pub new_collector : ℕ → ℕ → IssueCollector
new_collector attempt_id maximum = record {
  attempt_id = attempt_id;
  maximum = maximum;
  total = 0;
  issues = [];
  pending_identities = [];
  detail_count = 0;
  last_phase = contract;
  truncated = false;
}

-- The number of issues that are stored one by one.
abbrev pub detail_limit : ℕ → ℕ
detail_limit maximum = if ltb 1 maximum then maximum - 1 else maximum

unfoldable pub is_known : Identity → IssueCollector → Bool
unfolding identity_eq
is_known i c = any (identity_eq i) c.pending_identities

-- What `add` is called with.
pub record Report : Type 0 where
  pub row_number : Option ℕ
  pub column : Text
  pub code : Text
  pub message : Text
  pub phase : IssuePhase

abbrev pub identity_of : Report → Identity
identity_of r = record { row_number = r.row_number; column = r.column; code = r.code }

-- `SalesImportIssue(...)`
abbrev pub stored_issue : ℕ → Report → Issue
stored_issue attempt_id r = record {
  attempt = attempt_id;
  row_number = r.row_number;
  column = r.column;
  code = r.code;
  message = r.message;
  phase = r.phase;
}

-- The collector after a new issue is counted.
abbrev pub counted : Report → IssueCollector → IssueCollector
counted r c = record c {
  pending_identities = identity_of r ∷ c.pending_identities;
  total = suc c.total;
  last_phase = r.phase;
}

unfoldable pub add : Report → IssueCollector → IssueCollector
unfolding is_known
add r c =
    if is_known (identity_of r) c
    then c
    else if ltb c.detail_count (detail_limit c.maximum)
    then record (counted r c) {
      issues = c.issues ++ stored_issue c.attempt_id r ∷ [];
      detail_count = suc c.detail_count;
    }
    else record (counted r c) { truncated = true }

abbrev pub drained : IssueCollector → IssueCollector
drained c = record c { issues = []; pending_identities = [] }

-- `drain`
abbrev pub drain : IssueCollector → List Issue × IssueCollector
drain c = (c.issues, drained c)

-- `str` of a number, whose digits are no more than the number's size.
abbrev decimal_from : ℕ → ℕ → Text → Text
decimal_from zero n text = text
decimal_from (suc fuel) n text =
    let more = decimal_from fuel (n / 10) ((48 + n % 10) ∷ text) in
    if ltb n 10 then (48 + n % 10) ∷ text else more

abbrev decimal : ℕ → Text
decimal n = decimal_from (suc n) n []

abbrev pub summary : IssueCollector → Issue
summary c = record {
  attempt = c.attempt_id;
  row_number = none;
  column = codes "__file__";
  code = codes "ISSUE_LIMIT_REACHED";
  message =
      codes "Only the first "
      ++ decimal c.detail_count
      ++ codes
          " detailed validation issues were stored. Correct those issues and submit a new file.";
  phase = c.last_phase;
}

-- `persisted`
unfoldable pub persisted : IssueCollector → List Issue × IssueCollector
persisted c =
    if c.truncated && ltb 0 c.maximum
    then ((if c.maximum == 1 then summary c ∷ [] else c.issues ++ summary c ∷ []), drained c)
    else drain c
