-- ===== src/Processing/Publish/Ledger.antt =====
-- The facts as an abstract ledger, a function from identifiers to what is recorded under them, and
-- publication as the recording of each row that the ledger does not have yet.
use pharma_intel.Base.{
  ℕ, suc, ◌≡◌, refl, true, Option, none, some, List, [], ◌∷◌, ◌++◌, arith, is_some, ok,
  Option-cases, inl, inr, >>=-eq-ok, if◌then◌else◌, sym, ◌∙◌, ap, Bool-cases,
}
use mathlib.Core.Path.{subst}
use pharma_intel.Base.Text.{Text, text_eq, text_eq_iff}
use pharma_intel.Base.Date.{Date}
use pharma_intel.Contract.Fields.{Decimal}
use pharma_intel.Processing.Checks.{World}
use pharma_intel.Processing.Facts.{StagedRow, Fact, new_fact, fact_of, has_source}
use pharma_intel.Processing.Facts.Laws.{text_eq_refl, find-append}
use pharma_intel.Processing.Publish.{Store, is_new, create_fact, bulk_create, to_insert}

-- What is recorded of a sale.
pub record Line : Type 0 where
  pub calendar_date : Option Date
  pub product : Option ℕ
  pub territory : Option ℕ
  pub hospital : Option ℕ
  pub sales_representative : Option ℕ
  pub quantity : Decimal
  pub revenue_amount : Decimal
  pub currency_code : Text
  pub created_by : ℕ

abbrev pub Ledger : Type 0
Ledger = Text → Option Line

abbrev pub line_of_row : ℕ → StagedRow → Line
line_of_row created_by row = record {
  calendar_date = row.calendar_date;
  product = row.product;
  territory = row.territory;
  hospital = row.hospital;
  sales_representative = row.sales_representative;
  quantity = row.quantity;
  revenue_amount = row.revenue_amount;
  currency_code = row.currency_code;
  created_by = created_by;
}

abbrev pub line_of_fact : Fact → Line
line_of_fact f = record {
  calendar_date = f.calendar_date;
  product = f.product;
  territory = f.territory;
  hospital = f.hospital;
  sales_representative = f.sales_representative;
  quantity = f.quantity;
  revenue_amount = f.revenue_amount;
  currency_code = f.currency_code;
  created_by = f.created_by;
}

abbrev pub line_of : Option Fact → Option Line
line_of none = none
line_of (some f) = some (line_of_fact f)

-- The ledger of one source system.
unfoldable pub ledger : Text → List Fact → Ledger
ledger source facts id = line_of (fact_of source id facts)

-- A row is recorded under its identifier, unless something is.
unfoldable pub record_row : ℕ → StagedRow → Ledger → Ledger
record_row created_by row known id = elim (known id) [
  | some l ↦ some l
  | none ↦ if text_eq row.source_record_id id then some (line_of_row created_by row) else none
]

unfoldable pub record_rows : ℕ → List StagedRow → Ledger → Ledger
unfolding record_row
record_rows created_by [] known = known
record_rows created_by (row ∷ rows) known =
    record_rows created_by rows (record_row created_by row known)

pub record_rows-nil :
    (created_by : ℕ) (known : Ledger) (id : Text) → record_rows created_by [] known id ≡ known id
unfolding record_rows
record_rows-nil created_by known id = refl

pub record_rows-append :
    (created_by : ℕ) (xs ys : List StagedRow) (known : Ledger) (id : Text)
    → record_rows created_by (xs ++ ys) known id
      ≡ record_rows created_by ys (record_rows created_by xs known) id
unfolding record_rows
record_rows-append created_by [] ys known id = refl
record_rows-append created_by (x ∷ xs) ys known id =
    record_rows-append created_by xs ys (record_row created_by x known) id

pub record_rows-same :
    (created_by : ℕ) (rows : List StagedRow) (a b : Ledger)
    → ((id : Text) → a id ≡ b id)
    → (id : Text) → record_rows created_by rows a id ≡ record_rows created_by rows b id
unfolding record_rows
record_rows-same created_by [] a b h id = h id
record_rows-same created_by (row ∷ rows) a b h id =
    record_rows-same created_by rows (record_row created_by row a) (record_row created_by row b)
      (λ k. ap (after k) (h k)) id
  where
    after : Text → Option Line → Option Line
    after k o = elim o [
      | some l ↦ some l
      | none ↦ if text_eq row.source_record_id k then some (line_of_row created_by row) else none
    ]

-- One insertion adds the fact at the end, with a key of its own.
pub create_fact-Added :
    (world : World) (f : Fact) (store after : Store)
    → create_fact world f store ≡ ok after
    → (fact_of f.source_system f.source_record_id store.facts ≡ none)
      × (after.facts ≡ store.facts ++ record f { id = store.next_id } ∷ [])
      × (after.next_id ≡ suc store.next_id)
unfolding create_fact
create_fact-Added world f store after h = ground (arith, h)

-- The facts with one more, looked up.
fact_of-append_new :
    (source s id : Text) (created_by n : ℕ) (row : StagedRow) (facts : List Fact)
    → fact_of s id (facts ++ new_fact source created_by n row ∷ []) ≡ elim (fact_of s id facts) [
      | none ↦
          if has_source s id (new_fact source created_by n row)
          then some (new_fact source created_by n row)
          else none
      | some f ↦ some f
    ]
fact_of-append_new source s id created_by n row facts =
    find-append (has_source s id) facts (new_fact source created_by n row ∷ [])

record_row-grows :
    (created_by : ℕ) (row : StagedRow) (known : Ledger) (id : Text)
    → is_some (known id) ≡ true
    → is_some (record_row created_by row known id) ≡ true
unfolding record_row
record_row-grows created_by row known id h = ground (arith, h)

-- Recording a row whose identifier is known changes nothing.
record_row-known :
    (created_by : ℕ) (row : StagedRow) (known : Ledger) (id : Text)
    → is_some (known row.source_record_id) ≡ true
    → record_row created_by row known id ≡ known id
unfolding record_row
record_row-known created_by row known id h = elim (Bool-cases (text_eq row.source_record_id id)) [
  | inr other ↦ ground (arith, other)
  | inl same ↦
      let e : row.source_record_id ≡ id = (text_eq_iff row.source_record_id id).0 same in
      let h' : is_some (known id) ≡ true = subst (λ t. is_some (known t) ≡ true) e h in
      ground (arith, h')
]

module _ (source : Text) (created_by : ℕ) where
  -- Recording a row is adding its fact, where there is none.
  record_row-new :
      (n : ℕ) (row : StagedRow) (facts : List Fact) (known : Ledger) (id : Text)
      → known id ≡ ledger source facts id
      → record_row created_by row known id
        ≡ ledger source (facts ++ new_fact source created_by n row ∷ []) id
  unfolding record_row ledger has_source
  record_row-new n row facts known id k =
      let a = fact_of-append_new source source id created_by n row facts in
      elim (Option-cases (fact_of source id facts)) [
        | inl e ↦ ground (arith, e, k, a, text_eq_refl source)
        | inr (f, e) ↦ ground (arith, e, k, a)
      ]

  -- The rows of a chunk are recorded one by one, whatever facts the store has beyond those seen.
  pub bulk_create-ledger :
      (world : World) (seen : List Fact) (rows : List StagedRow) (store after : Store)
      (known : Ledger)
      → ((id : Text) → is_some (fact_of source id seen) ≡ true → is_some (known id) ≡ true)
      → ((id : Text) → known id ≡ ledger source store.facts id)
      → bulk_create world (to_insert source created_by seen rows) store ≡ ok after
      → (id : Text) → record_rows created_by rows known id ≡ ledger source after.facts id
  unfolding bulk_create to_insert is_new record_rows
  bulk_create-ledger world seen [] store after known s k h = λ id. ground (arith, h, k id)
  bulk_create-ledger world seen (row ∷ rows) store after known s k h =
      let known' = record_row created_by row known in
      let s' : (id : Text) → is_some (fact_of source id seen) ≡ true → is_some (known' id) ≡ true =
        λ id t. record_row-grows created_by row known id (s id t) in
      elim (Option-cases (fact_of source row.source_record_id seen)) [
        | inr (f, e) ↦
            let here : is_some (known row.source_record_id) ≡ true =
              s row.source_record_id (ground (arith, e)) in
            bulk_create-ledger world seen rows store after known' s'
              (λ id. record_row-known created_by row known id here ∙ k id) (rw e at h)
        | inl e ↦
            let f = new_fact source created_by 0 row in
            let (mid, c, h₁) = >>=-eq-ok (create_fact world f store) _ (rw e at h) in
            let (_, facts, _) = create_fact-Added world f store mid c in
            bulk_create-ledger world seen rows mid after known' s'
              (λ id.
                record_row-new store.next_id row store.facts known id (k id)
                ∙ ap (λ fs. ledger source fs id) (sym facts))
              h₁
      ]
