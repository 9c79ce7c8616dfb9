-- ===== src/Promotion/Selection/Outcomes.antt =====
-- The outcome of `select_candidates` (src/flight_delay/promotion/selector.py) on any raw
-- candidates, dicts among them.
use mathlib.Core.List.{Perm}
use us_flight_delay_mlops.Prelude.{
  ℕ, suc, ◌≡◌, refl, sym, ap, ◌∙◌, true, false, Option, none, some, List, [], ◌∷◌, String, any,
  Bool-cases, inl, inr,
}
use us_flight_delay_mlops.Python.Result.{ok}
use us_flight_delay_mlops.Python.Result.Ensures.{Ensures, Ensures-bind, Ensures-eq_ok, Ensures-map}
use us_flight_delay_mlops.Python.Sorted.{sort_result-perm}
use us_flight_delay_mlops.Python.Value.{Value}
use us_flight_delay_mlops.Promotion.Candidates.{CandidateRecord}
use us_flight_delay_mlops.Promotion.Policy.{PromotionPolicy}
use us_flight_delay_mlops.Promotion.Selector.{
  Rejection, Outcome, promote, retain_current, blocked_invalid_metadata, no_eligible_candidate,
  no_action, move_alias, SelectionResult, is_incumbent, compare_candidates,
}
use us_flight_delay_mlops.Promotion.Selection.{
  RawCandidate, Verdict, eligible, rejected, is_invalid, judge, judge_all, file, nothing_eligible,
  chosen, decide, select_candidates,
}

module _ (shown : Value → String) (policy : PromotionPolicy) (incumbent : Option (List ℕ)) where
  -- what each outcome means
  abbrev pub Means : SelectionResult → Outcome → Type 0
  Means r promote =
      (w : CandidateRecord) × (r.winner ≡ some w)
      × (is_incumbent incumbent w ≡ false)
      × (r.requested_action ≡ move_alias)
  Means r retain_current =
      (w : CandidateRecord) × (r.winner ≡ some w)
      × (is_incumbent incumbent w ≡ true)
      × (r.requested_action ≡ no_action)
  Means r blocked_invalid_metadata =
      (r.winner ≡ none) × (any is_invalid r.rejected ≡ true) × (r.requested_action ≡ no_action)
  Means r no_eligible_candidate =
      (r.winner ≡ none) × (any is_invalid r.rejected ≡ false) × (r.requested_action ≡ no_action)

  decide-Means :
      (ranked : List CandidateRecord) (rejections : List Rejection)
      → Ensures (λ r. Means r r.outcome) (decide shown policy incumbent ranked rejections)
  unfolding decide nothing_eligible chosen
  decide-Means [] rejections = elim (Bool-cases (any is_invalid rejections)) [
    | inl bad ↦ rw bad (refl, bad, refl)
    | inr fine ↦ rw fine (refl, fine, refl)
  ]
  decide-Means (w ∷ ws) rejections = Ensures-bind _ _ _ λ explained _.
      elim (Bool-cases (is_incumbent incumbent w)) [
        | inl is ↦ rw is (w, refl, is, refl)
        | inr isnt ↦ rw isnt (w, refl, isnt, refl)
      ]

  -- The alias is asked to move exactly when there is a winner that is not the incumbent, and the
  -- outcome says so; with no winner the outcome tells rejected metadata from failed gates.
  pub outcome-Means :
      (items : List RawCandidate) {r : SelectionResult}
      → select_candidates shown policy incumbent items ≡ ok r
      → Means r r.outcome
  unfolding select_candidates
  outcome-Means items h =
      Ensures-eq_ok (λ (r : SelectionResult). Means r r.outcome) _
        (Ensures-bind _ _ _ λ judged _. Ensures-bind _ _ _ λ ranked _. decide-Means ranked judged.1)
        h

  -- one verdict for each item, in their order
  pub data Judged : ℕ → List RawCandidate → List Verdict → Type 0 where
    no_items : {index : ℕ} → Judged index [] []
    next_item :
        {index : ℕ} {item : RawCandidate} {items : List RawCandidate} {v : Verdict}
        {vs : List Verdict}
        → judge shown policy index item ≡ ok v
        → Judged (suc index) items vs
        → Judged index (item ∷ items) (v ∷ vs)

  -- the candidates found eligible, and the rejections
  abbrev pub admitted : List Verdict → List CandidateRecord
  admitted [] = []
  admitted (eligible c ∷ vs) = c ∷ admitted vs
  admitted (rejected r ∷ vs) = admitted vs

  abbrev pub refusals : List Verdict → List Rejection
  refusals [] = []
  refusals (eligible c ∷ vs) = refusals vs
  refusals (rejected r ∷ vs) = r ∷ refusals vs

  -- the items are judged, and these are the two lists
  abbrev Files : ℕ → List RawCandidate → List CandidateRecord × List Rejection → Type 0
  Files index items (cs, rs) =
      (vs : List Verdict) × Judged index items vs × (cs ≡ admitted vs) × (rs ≡ refusals vs)

  file-Files :
      (index : ℕ) (item : RawCandidate) (items : List RawCandidate) (v : Verdict)
      (lists : List CandidateRecord × List Rejection)
      → judge shown policy index item ≡ ok v
      → Files (suc index) items lists
      → Files index (item ∷ items) (file shown policy v lists)
  unfolding file
  file-Files index item items (eligible c) (cs, rs) j (vs, js, is_cs, is_rs) =
      (eligible c ∷ vs, next_item j js, ap (λ l. c ∷ l) is_cs, is_rs)
  file-Files index item items (rejected r) (cs, rs) j (vs, js, is_cs, is_rs) =
      (rejected r ∷ vs, next_item j js, is_cs, ap (λ l. r ∷ l) is_rs)

  judge_all-Files :
      (index : ℕ) (items : List RawCandidate)
      → Ensures (Files index items) (judge_all shown policy index items)
  unfolding judge_all
  judge_all-Files index [] = ([], no_items, refl, refl)
  judge_all-Files index (item ∷ items) = Ensures-bind _ _ _ λ verdict j.
      Ensures-bind _ _ _ λ rest judged.
        file-Files index item items verdict rest j
          (Ensures-eq_ok (Files (suc index) items) _ (judge_all-Files (suc index) items) judged)

  -- the result has the ranked candidates and the rejections
  decide_lists :
      (ranked : List CandidateRecord) (rejections : List Rejection)
      → Ensures
          (λ (r : SelectionResult). (r.eligible ≡ ranked) × (r.rejected ≡ rejections))
          (decide shown policy incumbent ranked rejections)
  unfolding decide nothing_eligible chosen
  decide_lists [] rejections = (refl, refl)
  decide_lists (w ∷ ws) rejections = Ensures-bind _ _ _ λ explained _. (refl, refl)

  -- each item has one verdict, and the result has the verdicts and nothing else
  pub record IsAccount (items : List RawCandidate) (r : SelectionResult) : Type 0 where
    pub verdicts : List Verdict
    pub judged : Judged 0 items verdicts
    pub ranked : Perm r.eligible (admitted verdicts)
    pub rejections : r.rejected ≡ refusals verdicts

  -- A selection that returns has judged every raw candidate once: the ranking is a rearrangement of
  -- the candidates found eligible, and the rejections are those of the others, in their order;
  -- nothing besides is ranked or rejected.
  pub all_accounted :
      (items : List RawCandidate) {r : SelectionResult}
      → select_candidates shown policy incumbent items ≡ ok r
      → IsAccount items r
  unfolding select_candidates
  all_accounted items h =
      Ensures-eq_ok (IsAccount items) _
        (Ensures-bind _ _ _ λ lists filed. Ensures-bind _ _ _ λ ranked sorted.
          Ensures-map (λ (r : SelectionResult). (r.eligible ≡ ranked) × (r.rejected ≡ lists.1))
            (IsAccount items) (decide shown policy incumbent ranked lists.1)
            (λ r is.
              let (vs, js, is_cs, is_rs) =
                Ensures-eq_ok (Files 0 items) _ (judge_all-Files 0 items) filed in
              let order =
                Ensures-eq_ok (λ out. Perm out lists.0) _
                  (sort_result-perm (compare_candidates policy incumbent) lists.0) sorted in
              record {
                verdicts = vs;
                judged = js;
                ranked = rw (is.0, sym is_cs) order;
                rejections = is.1 ∙ is_rs;
              })
            (decide_lists ranked lists.1))
        h
