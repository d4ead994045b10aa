-- ===== src/Processing/Resolve/Prefetch.antt =====
-- What is read for a whole chunk is enough: each row is resolved as it would be against the tables.
use pharma_intel.Base.{
  ℕ, ◌≡◌, refl, Bool, true, false, not, ◌&&◌, Option, none, some, List, [], ◌∷◌, ◌==◌, map, any,
  find, filter, arith, Bool-cases, inl, inr, ◌∙◌, ap,
}
use mathlib.Core.List.{Memᴰ}
use pharma_intel.Base.Text.{Text, text_eq, is_empty}
use pharma_intel.Base.Date.{Date}
use pharma_intel.Contract.Headers.{is_member}
use pharma_intel.Processing.Issues.{IssueCollector}
use pharma_intel.Processing.Facts.{StagedRow, date_eq}
use pharma_intel.Processing.Checks.{Territory}
use pharma_intel.Processing.Resolve.{
  Coded, Assignment, Master, date_le, ends_after, master_map, by_code, contains, no_elements,
  is_within, effective_assignments, periods, is_effective, not_blank, prefetch, optional_code,
  is_assigned, found,
}
use pharma_intel.Processing.Resolve.Rows.{resolve_rows, resolve_chunk, resolve_row, turn_then}
use pharma_intel.Processing.Resolve.Lookup.{
  date_le_trans, find-filter, is_effective-filter, any-holds, map-Memᴰ, filter-Memᴰ, find-Memᴰ,
  minimum_of_le, maximum_of_le,
}

-- A code that is wanted is found in the map as in the table.
by_code-master_map :
    {A : Type 0} (code : A → Text) (c : Text) (wanted : List Text) (items : List A)
    → Memᴰ c wanted
    → by_code code c (master_map code wanted items) ≡ by_code code c items
unfolding master_map is_member
by_code-master_map code c wanted items m =
    find-filter (λ i. text_eq (code i) c) (λ i. any (text_eq (code i)) wanted) items
      (λ i h. any-holds (text_eq (code i)) c wanted m h)

optional_code-master_map :
    (c : Text) (wanted : List Text) (items : List Coded)
    → Memᴰ c wanted
    → optional_code c (master_map Coded.code (not_blank wanted) items) ≡ optional_code c items
optional_code-master_map c wanted items m = elim (Bool-cases (is_empty c)) [
  | inl e ↦ ground (arith, e)
  | inr e ↦
      let k : not (is_empty c) ≡ true = ground (arith, e) in
      let w = filter-Memᴰ (λ t. not (is_empty t)) c wanted k m in
      ground (arith, e, by_code-master_map Coded.code c (not_blank wanted) items w)
]

contains-map :
    {A : Type 0} (id : A → ℕ) (x : A) (xs : List A) → Memᴰ x xs → contains (id x) (map id xs) ≡ true
contains-map id x xs m =
    any-holds (λ n. id x == n) (id x) (map id xs) (map-Memᴰ id x xs m) (ground arith)

no_elements-contains : (n : ℕ) (ns : List ℕ) → contains n ns ≡ true → no_elements ns ≡ false
no_elements-contains n [] h = absurd (ground (arith, h))
no_elements-contains n (x ∷ ns) h = refl

-- The assignments that are read for a chunk decide as the whole table does.
is_assigned-chunk :
    (item : Option Coded) (place : Option Territory) (date minimum maximum : Date)
    (items : List Coded) (places : List Territory) (table : List Assignment)
    → ((i : Coded) → item ≡ some i → Memᴰ i items)
    → ((t : Territory) → place ≡ some t → Memᴰ t places)
    → date_le minimum date ≡ true
    → date_le date maximum ≡ true
    → is_assigned item place date
        (effective_assignments (map Coded.id items) (map Territory.id places) minimum maximum table)
      ≡ is_assigned item place date table
unfolding is_assigned effective_assignments is_within
is_assigned-chunk none place date minimum maximum items places table i t lo hi = refl
is_assigned-chunk (some x) none date minimum maximum items places table i t lo hi = refl
is_assigned-chunk (some x) (some y) date minimum maximum items places table i t lo hi =
    let ids = map Coded.id items in
    let pks = map Territory.id places in
    let a : contains x.id ids ≡ true = contains-map Coded.id x items (i x refl) in
    let b : contains y.id pks ≡ true = contains-map Territory.id y places (t y refl) in
    let e : effective_assignments ids pks minimum maximum table
        ≡ filter (is_within ids pks minimum maximum) table =
      ground (arith, no_elements-contains x.id ids a, no_elements-contains y.id pks b) in
    ap (λ ws. is_effective (periods x.id y.id ws) date) e
    ∙ is_effective-filter x.id y.id date (is_within ids pks minimum maximum) table (λ w h f g.
      let same : w.identity ≡ x.id = ground (arith, h) in
      let same' : w.territory ≡ y.id = ground (arith, h) in
      let a' : contains w.identity ids ≡ true = rw same a in
      let b' : contains w.territory pks ≡ true = rw same' b in
      let from = date_le_trans w.effective_from date maximum f hi in
      let to : ends_after minimum w.effective_to ≡ true =
        ends_before minimum date w.effective_to lo g in
      ground (arith, a', b', from, to))
  where
    ends_before :
        (lower later : Date) (o : Option Date)
        → date_le lower later ≡ true
        → ends_after later o ≡ true
        → ends_after lower o ≡ true
    ends_before lower later none h k = refl
    ends_before lower later (some d) h k = date_le_trans lower later d h k

find-filter_and :
    {A : Type 0} (p s q : A → Bool) (xs : List A)
    → ((x : A) → p x ≡ true → q x ≡ true)
    → find p (filter (λ x. s x && q x) xs) ≡ find p (filter s xs)
find-filter_and p s q [] h = refl
find-filter_and p s q (x ∷ xs) h =
    let rest = find-filter_and p s q xs h in
    elim (Bool-cases (s x)) [
      | inr e ↦ ground (arith, e, rest)
      | inl e ↦ elim (Bool-cases (q x)) [
        | inl k ↦ ground (arith, e, k, rest)
        | inr k ↦ ground (arith, e, k, h x, rest)
      ]
    ]

optional_code-Memᴰ :
    (c : Text) (items : List Coded) (i : Coded) → optional_code c items ≡ some i → Memᴰ i items
optional_code-Memᴰ c items i h = elim (Bool-cases (is_empty c)) [
  | inl e ↦ absurd (ground (arith, e, h))
  | inr e ↦ find-Memᴰ (λ x. text_eq x.code c) i items (ground (arith, e, h))
]

-- The tables, with the facts of one source.
abbrev pub of_source : Text → Master → Master
of_source source m = record m { facts = filter (λ f. text_eq f.source_system source) m.facts }

-- A row of the chunk finds in what is read for the chunk what it finds in the tables.
found-prefetch :
    (source : Text) (row : StagedRow) (rows : List StagedRow) (m : Master) (r : StagedRow)
    → Memᴰ r (row ∷ rows)
    → found (prefetch source row rows m) r ≡ found (of_source source m) r
unfolding found prefetch is_member
found-prefetch source row rows m r k =
    let chunk = row ∷ rows in
    let p = prefetch source row rows m in
    let day = map-Memᴰ StagedRow.transaction_date r chunk k in
    let lo =
      minimum_of_le r.transaction_date row.transaction_date (map StagedRow.transaction_date rows)
        day in
    let hi =
      maximum_of_le r.transaction_date row.transaction_date (map StagedRow.transaction_date rows)
        day in
    let calendar' : (found p r).calendar ≡ (found (of_source source m) r).calendar =
      find-filter (λ d. date_eq d r.transaction_date)
        (λ d. any (date_eq d) (map StagedRow.transaction_date chunk)) m.calendars
        (λ d h.
          any-holds (date_eq d) r.transaction_date (map StagedRow.transaction_date chunk) day h) in
    let product' =
      by_code-master_map Coded.code r.product_code (map StagedRow.product_code chunk) m.products
        (map-Memᴰ StagedRow.product_code r chunk k) in
    let place' =
      by_code-master_map Territory.code r.territory_code (map StagedRow.territory_code chunk)
        m.territories (map-Memᴰ StagedRow.territory_code r chunk k) in
    let hospital' =
      optional_code-master_map r.hospital_code (map StagedRow.hospital_code chunk) m.hospitals
        (map-Memᴰ StagedRow.hospital_code r chunk k) in
    let representative' =
      optional_code-master_map r.sales_representative_code
        (map StagedRow.sales_representative_code chunk) m.representatives
        (map-Memᴰ StagedRow.sales_representative_code r chunk k) in
    let place = by_code Territory.code r.territory_code p.territories in
    let here : (t : Territory) → place ≡ some t → Memᴰ t p.territories =
      λ t h. find-Memᴰ (λ i. text_eq i.code r.territory_code) t p.territories h in
    let hospital = optional_code r.hospital_code p.hospitals in
    let representative = optional_code r.sales_representative_code p.representatives in
    let assigned : (found p r).hospital_assigned
        ≡ (found (of_source source m) r).hospital_assigned =
      is_assigned-chunk hospital place r.transaction_date _ _ p.hospitals p.territories
        m.hospital_assignments (optional_code-Memᴰ r.hospital_code p.hospitals) here lo hi
      ∙ (λ i. is_assigned (hospital' i) (place' i) r.transaction_date m.hospital_assignments) in
    let assigned' : (found p r).representative_assigned
        ≡ (found (of_source source m) r).representative_assigned =
      is_assigned-chunk representative place r.transaction_date _ _ p.representatives p.territories
        m.representative_assignments
        (optional_code-Memᴰ r.sales_representative_code p.representatives) here lo hi
      ∙ (λ i.
          is_assigned (representative' i) (place' i) r.transaction_date
            m.representative_assignments) in
    let fact' =
      find-filter_and (λ f. text_eq f.source_record_id r.source_record_id)
        (λ f. text_eq f.source_system source)
        (λ f. is_member f.source_record_id (map StagedRow.source_record_id chunk)) m.facts
        (λ f h.
          any-holds (text_eq f.source_record_id) r.source_record_id
            (map StagedRow.source_record_id chunk) (map-Memᴰ StagedRow.source_record_id r chunk k)
            h) in
    λ i. record {
      calendar = calendar' i;
      product = product' i;
      territory = place' i;
      hospital = hospital' i;
      representative = representative' i;
      hospital_assigned = assigned i;
      representative_assigned = assigned' i;
      fact = fact' i;
    }

resolve_rows-same :
    (m n : Master) (rows : List StagedRow) (c : IssueCollector)
    → ((r : StagedRow) → Memᴰ r rows → found m r ≡ found n r)
    → resolve_rows m rows c ≡ resolve_rows n rows c
unfolding resolve_rows
resolve_rows-same m n [] c h = refl
resolve_rows-same m n (row ∷ rows) c h =
    let e = h row (Memᴰ.head refl) in
    let turn = resolve_row (found n row) row c in
    let rest = resolve_rows-same m n rows (turn.2) (λ r k. h r (Memᴰ.tail k)) in
    ap (λ f. turn_then (resolve_row f row c) (resolve_rows m rows ((resolve_row f row c).2))) e
    ∙ ap (turn_then turn) rest

-- The reads for a whole chunk, with their windows of codes, keys and dates, resolve every row of
-- the chunk as the master data, the assignments and the source's facts taken as a whole would, with
-- the same issues.
pub resolve_chunk-eq :
    (source : Text) (row : StagedRow) (rows : List StagedRow) (m : Master) (c : IssueCollector)
    → resolve_chunk source (row ∷ rows) m c ≡ resolve_rows (of_source source m) (row ∷ rows) c
unfolding resolve_chunk
resolve_chunk-eq source row rows m c =
    resolve_rows-same (prefetch source row rows m) (of_source source m) (row ∷ rows) c
      (found-prefetch source row rows m)
