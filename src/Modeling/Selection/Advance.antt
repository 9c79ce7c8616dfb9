-- ===== src/Modeling/Selection/Advance.antt =====
-- What `advance_family` of src/flight_delay/modeling/v3/selection.py promises.
use mathlib.Core.Path.{subst}
use mathlib.Core.List.{Perm, Mem}
use us_flight_delay_mlops.Prelude.{
  ℕ, zero, suc, ◌≤◌, ◌≡◌, refl, sym, ap, ◌∙◌, ◌≢◌, Bool, true, false, not, ◌||◌, List, [], ◌∷◌,
  ◌++◌, All, String, Ordering, arith, Bool-cases, inl, inr, if◌then◌else◌, filter, length, ltb,
  ◌==◌,
}
use us_flight_delay_mlops.Prelude.Sort.{IsSorted, sort_by, sort_by-perm, length-sort_by}
use us_flight_delay_mlops.Python.Float.{flt}
use us_flight_delay_mlops.Python.Result.{ok, ◌>>=◌}
use us_flight_delay_mlops.Python.Result.Ensures.{ok-injective, >>=-eq-ok, raise_if-eq-ok}
use us_flight_delay_mlops.Modeling.Ranking.Finite.{IsSorted-append}
use us_flight_delay_mlops.Modeling.Ranking.Keyed.{HasFigures, sort_rows-IsSorted, not_smaller}
use us_flight_delay_mlops.Modeling.Selection.{
  Candidate, is_completed, of_family, rank_key, compare_ranked, rank_candidates, take,
  advance_family,
}

length-filter {ℓ} : {A : Type ℓ} (p : A → Bool) (l : List A) → length (filter p l) ≤ length l
length-filter p [] = ground arith
length-filter p (x ∷ xs) = ground (arith, length-filter p xs)

-- A filter that drops nothing is the identity.
filter-full {ℓ} :
    {A : Type ℓ} (p : A → Bool) (l : List A)
    → length (filter p l) ≡ length l
    → (filter p l ≡ l) × All (λ x. p x ≡ true) l
filter-full p [] h = (refl, tt)
filter-full p (x ∷ xs) h = elim (Bool-cases (p x)) [
  | inl keep ↦
      let rest = filter-full p xs (ground arith) in
      (rw keep (ap (λ r. x ∷ r) rest.0), (keep, rest.1))
  | inr drop ↦ absurd (ground (arith, length-filter p xs))
]

take-append {ℓ} : {A : Type ℓ} (n : ℕ) (l : List A) → (rest : List A) × (take n l ++ rest ≡ l)
take-append zero l = (l, refl)
take-append (suc n) [] = ([], refl)
take-append (suc n) (x ∷ xs) = let cut = take-append n xs in (cut.0, ap (λ r. x ∷ r) cut.1)

length-take {ℓ} :
    {A : Type ℓ} (n : ℕ) (l : List A)
    → length (take n l) ≡ (if ltb n (length l) then n else length l)
length-take zero l = ground arith
length-take (suc n) [] = ground arith
length-take (suc n) (x ∷ xs) = ground (arith, length-take n xs)

-- What the advanced candidates of a family are: the first of its ranking.
pub record Advances (rows : List Candidate) (family : String) (expected advance : ℕ)
    (advanced : List Candidate) : Type 0 where
  -- the candidates of the family that do not advance
  pub others : List Candidate
  pub same : Perm (advanced ++ others) (filter (of_family family) rows)
  pub complete : All (λ row. is_completed row ≡ true) (filter (of_family family) rows)
  pub count : length advanced ≡ (if ltb advance expected then advance else expected)
  pub ordered : IsSorted compare_ranked advanced
  pub ahead : (a b : Candidate) → Mem a advanced → Mem b others → compare_ranked a b ≢ Ordering.gt
  pub robust :
      (a b : Candidate)
      → Mem a advanced
      → Mem b others
      → flt a.worst_fold_operating_precision b.worst_fold_operating_precision ≡ false

-- A ranking as long as the list is that of the list: all completed.
rank_complete :
    (rows : List Candidate)
    → length (rank_candidates rows) ≡ length rows
    → (rank_candidates rows ≡ sort_by compare_ranked rows)
      × All (λ row. is_completed row ≡ true) rows
unfolding rank_candidates
rank_complete rows e =
    let full =
      filter-full is_completed rows
        (sym (length-sort_by compare_ranked (filter is_completed rows)) ∙ e) in
    (ap (λ l. sort_by compare_ranked l) full.0, full.1)

-- the first candidates of a complete family advance
firsts :
    (rows : List Candidate) (family : String) (expected advance : ℕ)
    → All
        (HasFigures rank_key (λ (row : Candidate). row.candidate_id))
        (filter (of_family family) rows)
    → length (filter (of_family family) rows) ≡ expected
    → length (rank_candidates (filter (of_family family) rows)) ≡ expected
    → Advances rows family expected advance
        (take advance (rank_candidates (filter (of_family family) rows)))
firsts rows family expected advance h n m =
    let family_rows = filter (of_family family) rows in
    let all_rows = rank_complete family_rows (m ∙ sym n) in
    let ranked = rank_candidates family_rows in
    let cut = take-append advance ranked in
    let sorted : IsSorted compare_ranked ranked =
      rw all_rows.0 (sort_rows-IsSorted rank_key (λ row. row.candidate_id) family_rows h) in
    let parts = IsSorted-append compare_ranked (take advance ranked) cut.0 (rw cut.1 sorted) in
    record {
      others = cut.0;
      same = rw (cut.1, all_rows.0) (sort_by-perm compare_ranked family_rows);
      complete = all_rows.1;
      count = rw m at (length-take advance ranked);
      ordered = parts.0;
      ahead = parts.1;
      robust = λ a b ma mb. not_smaller _ _ _ _ _ _ (parts.1 a b ma mb);
    }

equal_counts : (a b c : ℕ) → (not (a == b) || not (c == b)) ≡ false → a ≡ b
equal_counts a b c h = ground arith

equal_count : (a b : ℕ) → not (a == b) ≡ false → a ≡ b
equal_count a b h = ground arith

-- Where a family advances, its candidates have all completed and as many as asked for advance, best
-- first: none of them compares above one that does not advance, and none has a smaller precision in
-- its worst fold. The figures of the family are finite.
pub advance_family-Advances :
    (rows : List Candidate) (family : String) (expected advance : ℕ) (advanced : List Candidate)
    → All
        (HasFigures rank_key (λ (row : Candidate). row.candidate_id))
        (filter (of_family family) rows)
    → advance_family rows family expected advance ≡ ok advanced
    → Advances rows family expected advance advanced
unfolding advance_family ◌>>=◌
advance_family-Advances rows family expected advance advanced h e =
    let family_rows = filter (of_family family) rows in
    let first = >>=-eq-ok _ _ e in
    let second = >>=-eq-ok _ _ first.2 in
    subst (Advances rows family expected advance) (ok-injective second.2) (
      firsts rows family expected advance h
        (equal_counts (length family_rows) expected _ (raise_if-eq-ok _ _ first.1))
        (equal_count _ expected (raise_if-eq-ok _ _ second.1)))
