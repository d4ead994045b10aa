-- ===== src/Contract/Headers/Laws.antt =====
-- What headers the contract accepts.
use pharma_intel.Base.{
  ◌≤◌, ◌≡◌, ◌↔◌, refl, Bool, true, false, not, List, [], ◌∷◌, any, ltb, ok, arith, Bool-cases, inl,
  inr, sym, ◌∙◌,
}
use mathlib.Core.Path.{subst}
use pharma_intel.Base.Text.{Text, text_eq, text_eq_iff}
use pharma_intel.Contract.Headers.{
  validate_sales_headers, normalized_headers, sales_rows_v1_columns, has_duplicate, has_outside,
  occurrences, is_member,
}

-- A test that holds of some element holds of one with at least one occurrence.
any-false :
    (p : Text → Bool) (h : Text) (hs : List Text)
    → any p hs ≡ false
    → is_member h hs ≡ true
    → p h ≡ false
unfolding is_member
any-false p h [] a m = cc
any-false p h (k ∷ hs) a m = elim (Bool-cases (text_eq h k)) [
  | inl e ↦ let same : h ≡ k = (text_eq_iff h k).0 e in rw same (ground (arith, a))
  | inr e ↦ any-false p h hs (ground (arith, a)) (ground (arith, m, e))
]

any-of_all :
    (p : Text → Bool) (hs : List Text)
    → ((h : Text) → is_member h hs ≡ true → p h ≡ false)
    → any p hs ≡ false
unfolding is_member
any-of_all p [] f = refl
any-of_all p (k ∷ hs) f =
    let self : text_eq k k ≡ true = (text_eq_iff k k).1 refl in
    let head : p k ≡ false = f k (ground (arith, self)) in
    let rest : any p hs ≡ false = any-of_all p hs (λ h m. f h (ground (arith, m))) in
    ground (arith, head, rest)

pub occurrences-member :
    (h : Text) (hs : List Text) → (is_member h hs ≡ true) ↔ (1 ≤ occurrences h hs)
unfolding is_member occurrences
occurrences-member h [] = ground arith
occurrences-member h (k ∷ hs) = ground (arith, occurrences-member h hs)

at_most_once : (hs : List Text) → has_duplicate hs ≡ false → (h : Text) → occurrences h hs ≤ 1
unfolding has_duplicate occurrences
at_most_once hs d h = elim (Bool-cases (is_member h hs)) [
  | inl m ↦
      let e : ltb 1 (occurrences h hs) ≡ false =
        any-false (λ k. ltb 1 (occurrences k hs)) h hs d m in
      ground (arith, e)
  | inr m ↦ ground (arith, m, occurrences-member h hs)
]

inside :
    (hs ks : List Text)
    → has_outside hs ks ≡ false
    → (h : Text) → is_member h hs ≡ true
    → is_member h ks ≡ true
unfolding has_outside
inside hs ks o h m =
    let e : not (is_member h ks) ≡ false = any-false (λ k. not (is_member k ks)) h hs o m in
    ground (arith, e)

columns_once : (h : Text) → occurrences h sales_rows_v1_columns ≤ 1
unfolding has_duplicate occurrences
columns_once h = at_most_once sales_rows_v1_columns refl h

-- Texts with the same occurrences, each at most once, are those with the same elements.
same_elements :
    (hs : List Text)
    → has_duplicate hs ≡ false
    → has_outside sales_rows_v1_columns hs ≡ false
    → has_outside hs sales_rows_v1_columns ≡ false
    → (h : Text) → occurrences h hs ≡ occurrences h sales_rows_v1_columns
same_elements hs d m o h =
    let cs = sales_rows_v1_columns in
    let there = inside cs hs m h in
    let back = inside hs cs o h in
    let a = at_most_once hs d h in
    let b = columns_once h in
    let i = occurrences-member h hs in
    let k = occurrences-member h cs in
    elim (Bool-cases (is_member h hs)) [
      | inl e ↦ let f : is_member h cs ≡ true = back e in omega (arith, a, b, i.0 e, k.0 f)
      | inr e ↦ elim (Bool-cases (is_member h cs)) [
        | inl f ↦ absurd (ground (arith, e, there f))
        | inr f ↦
            let x : occurrences h hs ≡ 0 = ground (arith, e, i) in
            let y : occurrences h cs ≡ 0 = ground (arith, f, k) in x ∙ sym y
      ]
    ]

module _ (hs : List Text)
    (same : (h : Text) → occurrences h hs ≡ occurrences h sales_rows_v1_columns) where
  no_duplicate : has_duplicate hs ≡ false
  unfolding has_duplicate
  no_duplicate =
      any-of_all (λ h. ltb 1 (occurrences h hs)) hs (λ h m. ground (arith, same h, columns_once h))

  same_member : (h : Text) → is_member h hs ≡ is_member h sales_rows_v1_columns
  same_member h =
      let i = occurrences-member h hs in
      let k = occurrences-member h sales_rows_v1_columns in
      let e = same h in
      elim (Bool-cases (is_member h hs)) [
        | inl f ↦ f ∙ sym (k.1 (omega (arith, e, i.0 f)))
        | inr f ↦ elim (Bool-cases (is_member h sales_rows_v1_columns)) [
          | inl g ↦ i.1 (omega (arith, e, k.0 g)) ∙ sym g
          | inr g ↦ f ∙ sym g
        ]
      ]

  none_missing : has_outside sales_rows_v1_columns hs ≡ false
  unfolding has_outside
  none_missing =
      any-of_all (λ h. not (is_member h hs)) sales_rows_v1_columns
        (λ h m. ground (arith, same_member h, m))

  none_unknown : has_outside hs sales_rows_v1_columns ≡ false
  unfolding has_outside
  none_unknown =
      any-of_all (λ h. not (is_member h sales_rows_v1_columns)) hs
        (λ h m. ground (arith, same_member h, m))

-- The headers are accepted exactly if, after a byte order mark at their front is taken off, they are
-- the nine columns of the contract in some order: every text occurs among them as often as it does
-- among the columns. What is returned are those headers.
pub validate_sales_headers_iff :
    (headers ns : List Text)
    → (validate_sales_headers headers ≡ ok ns) ↔ (
        (ns ≡ normalized_headers headers)
        × ((h : Text) → occurrences h ns ≡ occurrences h sales_rows_v1_columns))
unfolding validate_sales_headers
validate_sales_headers_iff headers ns = (forth, back)
  where
    forth :
        validate_sales_headers headers ≡ ok ns
        → (ns ≡ normalized_headers headers)
          × ((h : Text) → occurrences h ns ≡ occurrences h sales_rows_v1_columns)
    forth e =
        let s : ns ≡ normalized_headers headers = ground (arith, e) in
        let d : has_duplicate (normalized_headers headers) ≡ false = ground (arith, e) in
        let m : has_outside sales_rows_v1_columns (normalized_headers headers) ≡ false =
          ground (arith, e) in
        let o : has_outside (normalized_headers headers) sales_rows_v1_columns ≡ false =
          ground (arith, e) in
        (
          s,
          subst
              (λ (t : List Text).
                (h : Text) → occurrences h t ≡ occurrences h sales_rows_v1_columns)
              (sym s) (same_elements (normalized_headers headers) d m o),
        )

    back :
        ((ns ≡ normalized_headers headers)
          × ((h : Text) → occurrences h ns ≡ occurrences h sales_rows_v1_columns))
        → validate_sales_headers headers ≡ ok ns
    back (s, f) =
        let d = no_duplicate ns f in
        let m = none_missing ns f in let o = none_unknown ns f in ground (arith, s, d, m, o)
