-- ===== src/Processing/Resolve.antt =====
-- `_resolve_and_validate_chunk` of sales_imports/processing.py: the references of staged rows to
-- master data, the calendar and the facts, which are read for a whole chunk at once. A table of
-- master data is the list of its rows; codes are unique in it.
pub mod Rows
pub mod Lookup
pub mod Prefetch
pub mod Valid
pub mod Whole
pub mod Publishable
use pharma_intel.Base.{
  ℕ, suc, ◌+◌, Bool, true, false, not, ◌&&◌, ◌||◌, Option, none, some, List, [], ◌∷◌, ◌++◌, ◌==◌,
  ltb, leb, map, any, find, filter, is_none, if◌then◌else◌,
}
use pharma_intel.Base.Text.{Text, codes, text_eq, is_empty}
use pharma_intel.Base.Date.{Date}
use pharma_intel.Contract.Headers.{is_member}
use pharma_intel.Queue.Rows.{master_data}
use pharma_intel.Processing.Issues.{IssueCollector, Report, add}
use pharma_intel.Processing.Facts.{StagedRow, Fact, date_eq, fact_matches}
use pharma_intel.Processing.Checks.{Territory}
use pharma_intel.Processing.Publish.{conflict_report}

-- A product, a hospital or a sales representative.
pub record Coded : Type 0 where
  pub id : ℕ
  pub code : Text

-- An assignment of a hospital or a representative to a territory.
pub record Assignment : Type 0 where
  pub identity : ℕ
  pub territory : ℕ
  pub effective_from : Date
  pub effective_to : Option Date

-- The tables that are read, and what is read of them for a chunk.
pub record Master : Type 0 where
  pub calendars : List Date
  pub products : List Coded
  pub territories : List Territory
  pub hospitals : List Coded
  pub representatives : List Coded
  pub hospital_assignments : List Assignment
  pub representative_assignments : List Assignment
  pub facts : List Fact

abbrev pub date_le : Date → Date → Bool
date_le a b =
    ltb a.year b.year
    || ((a.year == b.year) && (ltb a.month b.month || ((a.month == b.month) && leb a.day b.day)))

-- `effective_to is None or effective_to >= date`
abbrev pub ends_after : Date → Option Date → Bool
ends_after date none = true
ends_after date (some to) = date_le date to

-- `min` and `max` of the dates `d` and `ds`
unfoldable pub minimum_of : Date → List Date → Date
minimum_of d [] = d
minimum_of d (e ∷ ds) = let m = minimum_of e ds in if date_le d m then d else m

unfoldable pub maximum_of : Date → List Date → Date
maximum_of d [] = d
maximum_of d (e ∷ ds) = let m = maximum_of e ds in if date_le m d then d else m

-- `_master_map`
unfoldable pub master_map {ℓ} : {A : Type ℓ} → (A → Text) → List Text → List A → List A
unfolding is_member
master_map code wanted items = filter (λ i. is_member (code i) wanted) items

-- `.get(code)` of such a map
abbrev pub by_code {ℓ} : {A : Type ℓ} → (A → Text) → Text → List A → Option A
by_code code c items = find (λ i. text_eq (code i) c) items

abbrev pub contains : ℕ → List ℕ → Bool
contains n ns = any (λ m. n == m) ns

abbrev pub no_elements : List ℕ → Bool
no_elements [] = true
no_elements (n ∷ ns) = false

unfoldable pub is_within : List ℕ → List ℕ → Date → Date → Assignment → Bool
is_within identities territories minimum maximum a =
    contains a.identity identities
    && contains a.territory territories
    && date_le a.effective_from maximum
    && ends_after minimum a.effective_to

-- `_effective_assignment_ids`, before the rows are grouped
unfoldable pub effective_assignments :
    List ℕ → List ℕ → Date → Date → List Assignment → List Assignment
unfolding is_within
effective_assignments identities territories minimum maximum table =
    if no_elements identities || no_elements territories
    then []
    else filter (is_within identities territories minimum maximum) table

-- The periods that are grouped under a pair of keys.
abbrev pub is_for : ℕ → ℕ → Assignment → Bool
is_for identity place a = (a.identity == identity) && (a.territory == place)

abbrev pub period : Assignment → Date × Option Date
period a = (a.effective_from, a.effective_to)

unfoldable pub periods : ℕ → ℕ → List Assignment → List (Date × Option Date)
periods identity place assignments = map period (filter (is_for identity place) assignments)

-- `_is_effective`
unfoldable pub is_effective : List (Date × Option Date) → Date → Bool
is_effective ps date = any (λ p. date_le (p.0) date && ends_after date (p.1)) ps

abbrev pub not_blank : List Text → List Text
not_blank cs = filter (λ c. not (is_empty c)) cs

-- What is read for the chunk of `row` and `rows`; `batched` gives no empty chunk.
unfoldable pub prefetch : Text → StagedRow → List StagedRow → Master → Master
unfolding master_map effective_assignments minimum_of maximum_of is_member
prefetch source row rows m =
    let chunk = row ∷ rows in
    let dates = map StagedRow.transaction_date chunk in
    let minimum = minimum_of row.transaction_date (map StagedRow.transaction_date rows) in
    let maximum = maximum_of row.transaction_date (map StagedRow.transaction_date rows) in
    let territories =
      master_map Territory.code (map StagedRow.territory_code chunk) m.territories in
    let hospitals =
      master_map Coded.code (not_blank (map StagedRow.hospital_code chunk)) m.hospitals in
    let representatives =
      master_map Coded.code (not_blank (map StagedRow.sales_representative_code chunk))
        m.representatives in
    record {
      calendars = filter (λ d. any (date_eq d) dates) m.calendars;
      products = master_map Coded.code (map StagedRow.product_code chunk) m.products;
      territories = territories;
      hospitals = hospitals;
      representatives = representatives;
      hospital_assignments =
          effective_assignments (map Coded.id hospitals) (map Territory.id territories) minimum
            maximum m.hospital_assignments;
      representative_assignments =
          effective_assignments (map Coded.id representatives) (map Territory.id territories)
            minimum maximum m.representative_assignments;
      facts =
          filter
            (λ f.
              text_eq f.source_system source
              && is_member f.source_record_id (map StagedRow.source_record_id chunk))
            m.facts;
    }

-- What the loop finds for one row.
pub record Found : Type 0 where
  pub calendar : Option Date
  pub product : Option Coded
  pub territory : Option Territory
  pub hospital : Option Coded
  pub representative : Option Coded
  pub hospital_assigned : Bool
  pub representative_assigned : Bool
  pub fact : Option Fact

-- A code that may be empty, looked up.
abbrev pub optional_code : Text → List Coded → Option Coded
optional_code c items = if is_empty c then none else by_code Coded.code c items

-- Whether an item is assigned to a territory on a date, where both are there.
unfoldable pub is_assigned : Option Coded → Option Territory → Date → List Assignment → Bool
unfolding is_effective periods
is_assigned (some item) (some t) date assignments =
    is_effective (periods item.id t.id assignments) date
is_assigned _ _ date assignments = true

unfoldable pub found : Master → StagedRow → Found
unfolding is_assigned
found m row =
    let place = by_code Territory.code row.territory_code m.territories in
    let hospital = optional_code row.hospital_code m.hospitals in
    let representative = optional_code row.sales_representative_code m.representatives in
    record {
      calendar = find (λ d. date_eq d row.transaction_date) m.calendars;
      product = by_code Coded.code row.product_code m.products;
      territory = place;
      hospital = hospital;
      representative = representative;
      hospital_assigned = is_assigned hospital place row.transaction_date m.hospital_assignments;
      representative_assigned =
          is_assigned representative place row.transaction_date m.representative_assignments;
      fact = find (λ f. text_eq f.source_record_id row.source_record_id) m.facts;
    }
