-- ===== src/Processing/Publish/Links.antt =====
-- What the store and the rows of a chunk look like after its facts are created.
use pharma_intel.Base.{
  ℕ, suc, ◌≡◌, refl, true, false, none, some, List, [], ◌∷◌, ◌++◌, arith, length, All, ok,
  Option-cases, inl, inr, >>=-eq-ok, sym, ◌∙◌, ap,
}
use mathlib.Core.Path.{subst}
use mathlib.Core.List.{append_assoc, append-nil}
use pharma_intel.Base.Text.{Text, text_eq, text_eq_iff}
use pharma_intel.Processing.Checks.{World}
use pharma_intel.Processing.Facts.{
  StagedRow, StagedOutcome, Fact, new_fact, fact_of, has_source, fact_matches, is_date_of,
}
use pharma_intel.Processing.Facts.Laws.{text_eq_refl, find-append, new_fact-matches}
use pharma_intel.Processing.Publish.{
  Store, is_new, is_conflict, create_fact, bulk_create, to_insert, link_rows,
}
use pharma_intel.Processing.Publish.Ledger.{create_fact-Added}

-- `business_data_sales_source_unique`
abbrev pub AreUnique : List Fact → Type 0
AreUnique [] = Unit
AreUnique (f ∷ fs) = (fact_of f.source_system f.source_record_id fs ≡ none) × AreUnique fs

text_eq_sym : (s t : Text) → text_eq s t ≡ true → text_eq t s ≡ true
text_eq_sym s t h = (text_eq_iff t s).1 (sym ((text_eq_iff s t).0 h))

has_source_sym :
    (f g : Fact)
    → has_source f.source_system f.source_record_id g ≡ false
    → has_source g.source_system g.source_record_id f ≡ false
unfolding has_source
has_source_sym f g h = ground (
  arith,
  h,
  text_eq_sym f.source_system g.source_system,
  text_eq_sym f.source_record_id g.source_record_id,
)

AreUnique-append_new :
    (f : Fact) (fs : List Fact)
    → AreUnique fs
    → fact_of f.source_system f.source_record_id fs ≡ none
    → AreUnique (fs ++ f ∷ [])
AreUnique-append_new f [] u h = (refl, tt)
AreUnique-append_new f (g ∷ fs) u h =
    let a = find-append (has_source g.source_system g.source_record_id) fs (f ∷ []) in
    let p : has_source f.source_system f.source_record_id g ≡ false = ground (arith, h) in
    let q = has_source_sym f g p in
    (ground (arith, a, u, q), AreUnique-append_new f fs u.1 (ground (arith, h, p)))

-- The facts after an insertion of many: those before, and as many new ones.
pub record Extends (count : ℕ) (before after : List Fact) : Type 0 where
  pub added : List Fact
  pub appended : after ≡ before ++ added
  pub as_many : length added ≡ count
  pub keeps_unique : AreUnique before → AreUnique after

pub bulk_create-Extends :
    (world : World) (fs : List Fact) (store after : Store)
    → bulk_create world fs store ≡ ok after
    → Extends (length fs) store.facts after.facts
unfolding bulk_create
bulk_create-Extends world [] store after h = record {
  added = [];
  appended = sym (append-nil store.facts ∙ ok_facts);
  as_many = refl;
  keeps_unique = subst AreUnique ok_facts;
}
  where
    ok_facts : store.facts ≡ after.facts
    ok_facts = cc
bulk_create-Extends world (f ∷ fs) store after h =
    let (mid, c, h₁) = >>=-eq-ok (create_fact world f store) _ h in
    let (free, facts, _) = create_fact-Added world f store mid c in
    let x = bulk_create-Extends world fs mid after h₁ in
    let g = record f { id = store.next_id } in
    record {
      added = g ∷ x.added;
      appended =
          x.appended ∙ ap (λ xs. xs ++ x.added) facts ∙ append_assoc store.facts (g ∷ []) x.added;
      as_many = ground (arith, x.as_many);
      keeps_unique = λ u.
          x.keeps_unique (subst AreUnique (sym facts) (AreUnique-append_new g store.facts u free));
    }

-- A row with its fact: the fact of its source record, which says the same.
pub record IsLinkedIn (source : Text) (facts : List Fact) (row : StagedRow) : Type 0 where
  pub fact : Fact
  pub recorded : fact_of source row.source_record_id facts ≡ some fact
  pub matching : fact_matches row fact ≡ true
  pub referenced : row.sales_transaction ≡ some fact.id

module _ (source : Text) where
  pub fact_of-kept :
      (id : Text) (f : Fact) (facts more : List Fact)
      → fact_of source id facts ≡ some f
      → fact_of source id (facts ++ more) ≡ some f
  fact_of-kept id f facts more h =
      let a = find-append (has_source source id) facts more in ground (arith, a, h)

  pub IsLinkedIn-kept :
      (facts more : List Fact) (row : StagedRow)
      → IsLinkedIn source facts row
      → IsLinkedIn source (facts ++ more) row
  IsLinkedIn-kept facts more row x = record {
    fact = x.fact;
    recorded = fact_of-kept row.source_record_id x.fact facts more x.recorded;
    matching = x.matching;
    referenced = x.referenced;
  }

  -- After the facts of a chunk are created, each of its rows is linked with its fact.
  pub link_rows-IsLinkedIn :
      (created_by : ℕ) (world : World) (seen : List Fact) (rows : List StagedRow)
      (store after : Store) (next : ℕ)
      → store.next_id ≡ next
      → ((id : Text) (f : Fact)
          → fact_of source id seen ≡ some f
          → fact_of source id store.facts ≡ some f)
      → All (λ row. is_conflict source seen row ≡ false) rows
      → All (λ row. is_date_of row.calendar_date row.transaction_date ≡ true) rows
      → bulk_create world (to_insert source created_by seen rows) store ≡ ok after
      → All (IsLinkedIn source after.facts) (link_rows source seen next rows)
  unfolding bulk_create to_insert is_new link_rows is_conflict fact_matches has_source
  link_rows-IsLinkedIn created_by world seen [] store after next n s c d h = tt
  link_rows-IsLinkedIn created_by world seen (row ∷ rows) store after next n s c d h =
      elim (Option-cases (fact_of source row.source_record_id seen)) [
        | inr (f, e) ↦
            let m : fact_matches row f ≡ true = ground (arith, c.0, e) in
            let rest = to_insert source created_by seen rows in
            let h' : bulk_create world rest store ≡ ok after = rw e at h in
            let x = bulk_create-Extends world rest store after h' in
            let kept =
              fact_of-kept row.source_record_id f store.facts x.added
                (s row.source_record_id f e) in
            let step : link_rows source seen next (row ∷ rows)
                ≡ record row { outcome = StagedOutcome.reused; sales_transaction = some f.id }
                  ∷ link_rows source seen next rows =
              ground (arith, e, m) in
            subst (All (IsLinkedIn source after.facts)) (sym step) (
              record {
                fact = f;
                recorded = ap (λ fs. fact_of source row.source_record_id fs) x.appended ∙ kept;
                matching = m;
                referenced = refl;
              },
              link_rows-IsLinkedIn created_by world seen rows store after next n s c.1 d.1 h',
            )
        | inl e ↦
            let g = new_fact source created_by next row in
            let rest = to_insert source created_by seen rows in
            let (mid, k, h₁) =
              >>=-eq-ok (create_fact world (new_fact source created_by 0 row) store) _
                (rw e at h) in
            let (free, facts, up) =
              create_fact-Added world (new_fact source created_by 0 row) store mid k in
            let x = bulk_create-Extends world rest mid after h₁ in
            let facts' : mid.facts ≡ store.facts ++ g ∷ [] =
              facts ∙ ap (λ (m : ℕ). store.facts ++ new_fact source created_by m row ∷ []) n in
            let s' : (id : Text) (f : Fact)
                → fact_of source id seen ≡ some f
                → fact_of source id mid.facts ≡ some f =
              λ id f q.
                ap (λ fs. fact_of source id fs) facts'
                ∙ fact_of-kept id f store.facts (g ∷ []) (s id f q) in
            let stored : fact_of source row.source_record_id mid.facts ≡ some g =
              let a = find-append (has_source source row.source_record_id) store.facts (g ∷ []) in
              ap (λ fs. fact_of source row.source_record_id fs) facts'
              ∙ ground (arith, a, free, text_eq_refl source, text_eq_refl row.source_record_id) in
            let kept = fact_of-kept row.source_record_id g mid.facts x.added stored in
            let step : link_rows source seen next (row ∷ rows)
                ≡ record row { outcome = StagedOutcome.published; sales_transaction = some next }
                  ∷ link_rows source seen (suc next) rows =
              ground (arith, e) in
            subst (All (IsLinkedIn source after.facts)) (sym step) (
              record {
                fact = g;
                recorded = ap (λ fs. fact_of source row.source_record_id fs) x.appended ∙ kept;
                matching = new_fact-matches source created_by next row d.0;
                referenced = refl;
              },
              link_rows-IsLinkedIn created_by world seen rows mid after (suc next) (up ∙ ap suc n)
                  s' c.1 d.1 h₁,
            )
      ]
