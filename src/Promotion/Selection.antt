-- ===== src/Promotion/Selection.antt =====
-- src/flight_delay/promotion/selector.py, `select_candidates`: the loop over the raw candidates
-- and the decision.
pub mod Outcomes
pub mod Returns
pub mod Winner
use us_flight_delay_mlops.Prelude.{
  ℕ, zero, suc, Bool, true, false, Option, none, some, List, [], ◌∷◌, ◌++◌, String, any, is_empty,
  if◌then◌else◌,
}
use us_flight_delay_mlops.Prelude.Text.{codes, decimal}
use us_flight_delay_mlops.Python.Result.{Result, ok, err, ◌>>=◌}
use us_flight_delay_mlops.Python.Sorted.{sort_result}
use us_flight_delay_mlops.Python.Value.{Value, Fields, str, dict, get}
use us_flight_delay_mlops.Promotion.Keys.{
  MetadataError, Raised, metadata, key_error, overflow_error,
}
use us_flight_delay_mlops.Promotion.Candidates.{CandidateRecord, from_mapping, immutable_identity}
use us_flight_delay_mlops.Promotion.Policy.{PromotionPolicy}
use us_flight_delay_mlops.Promotion.Selector.{
  Reason, invalid, Category, invalid_metadata, policy_gate, Rejection, Outcome, promote,
  retain_current, blocked_invalid_metadata, no_eligible_candidate, Action, no_action, move_alias,
  Explanation, SelectionResult, gate_reasons, compare_candidates, explanations, is_incumbent,
}

-- an item of `raw_candidates`
pub data RawCandidate : Type 0 where
  parsed : CandidateRecord → RawCandidate
  raw : Value → RawCandidate

-- what the loop makes of one item
pub data Verdict : Type 0 where
  eligible : CandidateRecord → Verdict
  rejected : Rejection → Verdict

abbrev pub is_invalid : Rejection → Bool
is_invalid r = elim r.category [ invalid_metadata ↦ true | policy_gate ↦ false ]

-- `shown` is `str(v)` of a value that is no text.
module _ (shown : Value → String) (policy : PromotionPolicy) where
  -- the name of an item that is no valid candidate
  unfoldable pub rejected_id : ℕ → Value → List ℕ
  rejected_id index (dict fs) = elim (get "candidate_id" fs) [
    | none ↦ codes "candidate-" ++ decimal index
    | some (str s) ↦ codes s
    | some v ↦ codes (shown v)
  ]
  rejected_id index _ = codes "candidate-" ++ decimal index

  unfoldable pub gate : CandidateRecord → Verdict
  gate c =
      let reasons = gate_reasons c policy in
      if is_empty reasons
      then eligible c
      else rejected (record {
        candidate_id = codes c.candidate_id;
        category = policy_gate;
        reasons = reasons;
      })

  -- the `try` around `from_mapping`: only a metadata error is caught
  unfoldable pub judge_parsed : ℕ → Value → Result Raised CandidateRecord → Result Raised Verdict
  judge_parsed index v (ok c) = ok (gate c)
  judge_parsed index v (err (metadata e)) = ok (
      rejected (record {
        candidate_id = rejected_id index v;
        category = invalid_metadata;
        reasons = invalid e ∷ [];
      }))
  judge_parsed index v (err e) = err e

  unfoldable pub judge : ℕ → RawCandidate → Result Raised Verdict
  unfolding judge_parsed
  judge index (parsed c) = ok (gate c)
  judge index (raw v) =
      judge_parsed index v
        (from_mapping policy.forbidden_key_fragments policy.forbidden_key_prefixes v)

  unfoldable pub file :
      Verdict → List CandidateRecord × List Rejection → List CandidateRecord × List Rejection
  file (eligible c) (cs, rs) = (c ∷ cs, rs)
  file (rejected r) (cs, rs) = (cs, r ∷ rs)

  -- the loop over the items: those that are eligible, and the rejections
  unfoldable pub judge_all :
      ℕ → List RawCandidate → Result Raised (List CandidateRecord × List Rejection)
  judge_all index [] = ok ([], [])
  judge_all index (item ∷ items) = do
    verdict ← judge index item
    rest ← judge_all (suc index) items
    ok (file verdict rest)

  module _ (incumbent : Option (List ℕ)) where
    -- the result where no candidate is left
    unfoldable pub nothing_eligible : List Rejection → SelectionResult
    nothing_eligible rejections = record {
      outcome =
          if any is_invalid rejections then blocked_invalid_metadata else no_eligible_candidate;
      winner = none;
      incumbent_identity = incumbent;
      eligible = [];
      rejected = rejections;
      ranking_explanation = [];
      requested_action = no_action;
    }

    -- the result where `winner` is the head of the ranking
    unfoldable pub chosen :
        CandidateRecord → List CandidateRecord → List Rejection → List Explanation → SelectionResult
    chosen winner others rejections explained =
        let retained = is_incumbent incumbent winner in
        record {
          outcome = if retained then retain_current else promote;
          winner = some winner;
          incumbent_identity = incumbent;
          eligible = winner ∷ others;
          rejected = rejections;
          ranking_explanation = explained;
          requested_action = if retained then no_action else move_alias;
        }

    unfoldable pub decide : List CandidateRecord → List Rejection → Result Raised SelectionResult
    decide [] rejections = ok (nothing_eligible rejections)
    decide (winner ∷ others) rejections = do
      explained ← explanations policy incumbent 1 (winner ∷ others)
      ok (chosen winner others rejections explained)

    unfoldable pub select_candidates : List RawCandidate → Result Raised SelectionResult
    select_candidates raw_candidates = do
      judged ← judge_all 0 raw_candidates
      ranked ← sort_result (compare_candidates policy incumbent) judged.0
      decide ranked judged.1
