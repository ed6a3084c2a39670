-- ===== src/Quality/Selection.antt =====
-- Which occurrences `_count_record_matches` of benchmarks/asr/quality_metrics.py counts.
use nadikt.Base.{
  Bool, true, false, ◌||◌, List, [], ◌∷◌, ◌++◌, ◌≡◌, refl, sym, ◌∙◌, arith, Bool-cases, inl, inr,
  any_of,
}
use nadikt.Quality.Spans.{Span, spans_overlap, same_span, insert_span, sort_spans, select_spans}

-- `s` is one of the spans.
abbrev pub IsAmong : Span → List Span → Type 0
IsAmong s ss = any_of (same_span s) ss ≡ true

-- No two of the spans overlap.
abbrev pub IsApart : List Span → Type 0
IsApart [] = Unit
IsApart (s ∷ ss) = (any_of (spans_overlap s) ss ≡ false) × IsApart ss

any_of-append {ℓ} :
    {A : Type ℓ} (p : A → Bool) (xs ys : List A) → any_of p (xs ++ ys) ≡ any_of p xs || any_of p ys
any_of-append p [] ys = refl
any_of-append p (x ∷ xs) ys = ground (arith, any_of-append p xs ys)

overlap_sym : (s t : Span) → spans_overlap s t ≡ spans_overlap t s
unfolding spans_overlap
overlap_sym s t = ground arith

IsApart-snoc :
    (ss : List Span) (s : Span)
    → IsApart ss
    → any_of (spans_overlap s) ss ≡ false
    → IsApart (ss ++ (s ∷ []))
IsApart-snoc [] s h q = (refl, tt)
IsApart-snoc (t ∷ ss) s h q =
    let rest = IsApart-snoc ss s h.1 (ground arith) in
    (ground (arith, any_of-append (spans_overlap t) ss (s ∷ []), overlap_sym s t), rest)

insert_span-IsAmong :
    (u s : Span) (ss : List Span)
    → any_of (same_span u) (insert_span s ss) ≡ same_span u s || any_of (same_span u) ss
unfolding insert_span same_span
insert_span-IsAmong u s [] = refl
insert_span-IsAmong u s (t ∷ ss) = ground (arith, insert_span-IsAmong u s ss)

sort_spans-IsAmong :
    (u : Span) (ss : List Span) → any_of (same_span u) (sort_spans ss) ≡ any_of (same_span u) ss
unfolding sort_spans
sort_spans-IsAmong u [] = refl
sort_spans-IsAmong u (s ∷ ss) =
    ground (arith, insert_span-IsAmong u s (sort_spans ss), sort_spans-IsAmong u ss)

select_spans-IsApart : (sel ss : List Span) → IsApart sel → IsApart (select_spans sel ss)
unfolding select_spans
select_spans-IsApart sel [] h = h
select_spans-IsApart sel (s ∷ ss) h = elim (Bool-cases (any_of (spans_overlap s) sel)) [
  | inl q ↦ rw q (select_spans-IsApart sel ss h)
  | inr q ↦ rw q (select_spans-IsApart (sel ++ (s ∷ [])) ss (IsApart-snoc sel s h q))
]

select_spans-IsAmong :
    (u : Span) (sel ss : List Span)
    → IsAmong u (select_spans sel ss)
    → any_of (same_span u) sel || any_of (same_span u) ss ≡ true
unfolding select_spans
select_spans-IsAmong u sel [] = λ h. ground arith
select_spans-IsAmong u sel (s ∷ ss) = elim (Bool-cases (any_of (spans_overlap s) sel)) [
  | inl q ↦ rw q (λ h. ground (arith, select_spans-IsAmong u sel ss h))
  | inr q ↦ rw q (λ h. ground (
    arith,
    select_spans-IsAmong u (sel ++ (s ∷ [])) ss h,
    any_of-append (same_span u) sel (s ∷ []),
  ))
]

-- `u` is one of the spans or overlaps one.
abbrev pub is_covered : Span → List Span → Bool
is_covered u ss = any_of (same_span u) ss || any_of (spans_overlap u) ss

is_covered-append :
    (u : Span) (xs ys : List Span) → is_covered u (xs ++ ys) ≡ is_covered u xs || is_covered u ys
is_covered-append u xs ys =
    ground (arith, any_of-append (same_span u) xs ys, any_of-append (spans_overlap u) xs ys)

same-covered :
    (u s : Span) (ss : List Span)
    → same_span u s ≡ true
    → any_of (spans_overlap s) ss ≡ true
    → any_of (spans_overlap u) ss ≡ true
unfolding same_span spans_overlap
same-covered u s [] q h = absurd (ground arith)
same-covered u s (t ∷ ss) q h = elim (Bool-cases (spans_overlap s t)) [
  | inl p ↦ ground arith
  | inr p ↦ ground (arith, same-covered u s ss q (ground arith))
]

select_spans-covers :
    (u : Span) (sel ss : List Span)
    → is_covered u sel || any_of (same_span u) ss ≡ true
    → is_covered u (select_spans sel ss) ≡ true
unfolding select_spans
select_spans-covers u sel [] h = ground arith
select_spans-covers u sel (s ∷ ss) h = elim (Bool-cases (any_of (spans_overlap s) sel)) [
  | inl q ↦ rw q (
      select_spans-covers u sel ss (elim (Bool-cases (same_span u s)) [
        | inl p ↦ ground (arith, same-covered u s sel p q)
        | inr p ↦ ground arith
      ]))
  | inr q ↦ rw q (
      select_spans-covers u (sel ++ (s ∷ [])) ss (ground (arith, is_covered-append u sel (s ∷ []))))
]

-- From any list of occurrences, the counted ones are pairwise without an overlap, each of them was
-- in the list, and each occurrence of the list is counted or overlaps a counted one.
pub select_spans-sort_spans :
    (spans : List Span)
    → IsApart (select_spans [] (sort_spans spans))
      × ((u : Span) → IsAmong u (select_spans [] (sort_spans spans)) → IsAmong u spans)
      × ((u : Span) → IsAmong u spans → is_covered u (select_spans [] (sort_spans spans)) ≡ true)
select_spans-sort_spans spans = (
  select_spans-IsApart [] (sort_spans spans) tt,
  λ u h. sym (sort_spans-IsAmong u spans) ∙ select_spans-IsAmong u [] (sort_spans spans) h,
  λ u h. select_spans-covers u [] (sort_spans spans) (sort_spans-IsAmong u spans ∙ h),
)
