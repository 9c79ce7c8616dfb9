-- ===== src/Promotion/Selector.antt =====
-- src/flight_delay/promotion/selector.py: gates, ranking and the choice among the candidates.
pub mod Gates
pub mod Order
pub mod Rankable
use us_flight_delay_mlops.Prelude.{
  ℕ, suc, ◌+◌, Bool, true, false, not, ◌&&◌, Option, none, some, List, [], ◌∷◌, ◌++◌, map, String,
  filter, any, is_empty, ◌=ₛ◌, if◌then◌else◌, Ordering,
}
use us_flight_delay_mlops.Prelude.Int.{ℤ, ltb_ℤ}
use us_flight_delay_mlops.Prelude.Compare.{compare_codes}
use us_flight_delay_mlops.Prelude.Text.{codes, decimal}
use us_flight_delay_mlops.Prelude.Names.{member, distinct, sorted, compare_text}
use us_flight_delay_mlops.Python.Result.{Result, ok, err, ◌>>=◌, or_raise, map_result}
use us_flight_delay_mlops.Python.Sorted.{sort_result}
use us_flight_delay_mlops.Python.Float.{Float, flt, feq, float_of_int}
use us_flight_delay_mlops.Python.Value.{Value, str, dict, get_or}
use us_flight_delay_mlops.Promotion.Keys.{
  MetadataError, Raised, metadata, key_error, overflow_error,
}
use us_flight_delay_mlops.Promotion.Candidates.{CandidateRecord, from_mapping, immutable_identity}
use us_flight_delay_mlops.Promotion.Policy.{
  PromotionPolicy, RankingRule, Direction, maximize, minimize, metric_names,
}

-- the texts of a rejection's `reasons`
pub data Reason : Type 0 where
  invalid : MetadataError → Reason
  outside_collection outside_lineage digest_not_allowed schema_incompatible : Reason
  protocol_incompatible size_exceeds_gate : Reason
  gate_failed : String → Reason
  metrics_missing : List String → Reason

pub data Category : Type 0 where
  invalid_metadata policy_gate : Category

pub record Rejection : Type 0 where
  pub candidate_id : List ℕ
  pub category : Category
  pub reasons : List Reason

pub data Outcome : Type 0 where
  promote retain_current blocked_invalid_metadata no_eligible_candidate : Outcome

pub data Action : Type 0 where
  no_action move_alias : Action

pub record Explanation : Type 0 where
  pub rank : ℕ
  pub candidate_id : String
  pub identity : List ℕ
  pub values : List (String × Float)
  pub incumbent : Bool

pub record SelectionResult : Type 0 where
  pub outcome : Outcome
  pub winner : Option CandidateRecord
  pub incumbent_identity : Option (List ℕ)
  pub eligible : List CandidateRecord
  pub rejected : List Rejection
  pub ranking_explanation : List Explanation
  pub requested_action : Action

abbrev pub reason_if : Bool → Reason → List Reason
reason_if b r = if b then r ∷ [] else []

-- `getattr(candidate, name)` of the four gates
unfoldable pub gate_of : CandidateRecord → String → Option Bool
gate_of c name =
    if name =ₛ "inference_compatible"
    then some c.inference_compatible
    else if name =ₛ "lineage_verified"
    then some c.lineage_verified
    else if name =ₛ "release_eligible"
    then some c.release_eligible
    else if name =ₛ "serialization_integrity"
    then some c.serialization_integrity
    else none

abbrev pub same_bool : Option Bool → Bool → Bool
same_bool (some true) true = true
same_bool (some false) false = true
same_bool _ _ = false

-- the loop over `policy.required_boolean_gates`
unfoldable pub gate_failures : CandidateRecord → List (String × Bool) → List Reason
gate_failures c [] = []
gate_failures c ((name, expected) ∷ gates) =
    reason_if (not (same_bool (gate_of c name) expected)) (gate_failed name)
    ++ gate_failures c gates

unfoldable pub metric_of : String → List (String × Float) → Option Float
metric_of name [] = none
metric_of name ((n, x) ∷ metrics) = if n =ₛ name then some x else metric_of name metrics

abbrev pub is_some {ℓ} : {A : Type ℓ} → Option A → Bool
is_some (some a) = true
is_some none = false

-- `set(policy.metric_names) - candidate.development_metrics.keys()`
unfoldable pub missing_metrics : CandidateRecord → PromotionPolicy → List String
missing_metrics c policy =
    filter (λ name. not (is_some (metric_of name c.development_metrics))) (metric_names policy)

-- `_gate_reasons`
unfoldable pub gate_reasons : CandidateRecord → PromotionPolicy → List Reason
gate_reasons c policy =
    reason_if (not (c.registry_path =ₛ policy.registry_collection)) outside_collection
    ++ (reason_if (not (c.dataset_artifact =ₛ policy.dataset_artifact)) outside_lineage
        ++ (reason_if (not (member c.dataset_digest policy.allowed_dataset_digests))
              digest_not_allowed
            ++ (reason_if (not (c.feature_schema_sha256 =ₛ policy.feature_schema_sha256))
                  schema_incompatible
                ++ (reason_if
                      (not (member c.evaluation_protocol policy.allowed_evaluation_protocols))
                      protocol_incompatible
                    ++ (gate_failures c policy.required_boolean_gates
                        ++ (reason_if (ltb_ℤ policy.max_bundle_size_bytes c.bundle_size_bytes)
                              size_exceeds_gate
                            ++ reason_if (not (is_empty (missing_metrics c policy))) (
                                metrics_missing
                                  (sorted (distinct (missing_metrics c policy))))))))))

-- `_rank_value`
unfoldable pub rank_value : CandidateRecord → String → Result Raised Float
rank_value c field =
    if field =ₛ "bundle_size_bytes"
    then or_raise (float_of_int c.bundle_size_bytes) overflow_error
    else or_raise (metric_of field c.development_metrics) (key_error field)

-- one entry of `values`
unfoldable pub ranked_value : CandidateRecord → RankingRule → Result Raised (String × Float)
ranked_value c rule = do x ← rank_value c rule.field; ok (rule.field, x)

-- which of two different values ranks first
abbrev pub preferred : Direction → Float → Float → Ordering
preferred maximize l r = if flt r l then Ordering.lt else Ordering.gt
preferred minimize l r = if flt l r then Ordering.lt else Ordering.gt

module _ (l r : CandidateRecord) where
  -- the loop of `_compare`; a tie on every rule is `eq`
  unfoldable pub compare_rules : List RankingRule → Result Raised Ordering
  compare_rules [] = ok Ordering.eq
  compare_rules (rule ∷ rules) = do
    left ← rank_value l rule.field
    right ← rank_value r rule.field
    if feq left right then compare_rules rules else ok (preferred rule.direction left right)

  -- `_same_rank_values`
  unfoldable pub same_rank_values : List RankingRule → Result Raised Bool
  same_rank_values [] = ok true
  same_rank_values (rule ∷ rules) = do
    left ← rank_value l rule.field
    right ← rank_value r rule.field
    if feq left right then same_rank_values rules else ok false

abbrev pub is_eq : Ordering → Bool
is_eq Ordering.eq = true
is_eq Ordering.lt = false
is_eq Ordering.gt = false

-- `candidate.immutable_identity == incumbent_identity`
unfoldable pub is_incumbent : Option (List ℕ) → CandidateRecord → Bool
is_incumbent none c = false
is_incumbent (some identity) c = is_eq (compare_codes (immutable_identity c) identity)

module _ (policy : PromotionPolicy) (incumbent : Option (List ℕ)) where
  -- what follows the loop of `_compare`
  unfoldable pub break_tie : CandidateRecord → CandidateRecord → Bool → Ordering
  break_tie l r same =
      if policy.prefer_incumbent_on_metric_tie && same && is_incumbent incumbent l
      then Ordering.lt
      else if policy.prefer_incumbent_on_metric_tie && same && is_incumbent incumbent r
      then Ordering.gt
      else compare_text l.candidate_id r.candidate_id

  after_rules : CandidateRecord → CandidateRecord → Ordering → Result Raised Ordering
  after_rules l r Ordering.lt = ok Ordering.lt
  after_rules l r Ordering.gt = ok Ordering.gt
  after_rules l r Ordering.eq = do
    same ←
        (if policy.prefer_incumbent_on_metric_tie
          then same_rank_values l r policy.ranking
          else ok false)
    ok (break_tie l r same)

  -- `_compare`
  unfoldable pub compare_candidates : CandidateRecord → CandidateRecord → Result Raised Ordering
  unfolding after_rules
  compare_candidates l r = do o ← compare_rules l r policy.ranking; after_rules l r o

  explanation : ℕ → CandidateRecord → Result Raised Explanation
  explanation index c = do
    values ← map_result (ranked_value c) policy.ranking
    ok (record {
      rank = index;
      candidate_id = c.candidate_id;
      identity = immutable_identity c;
      values = values;
      incumbent = is_incumbent incumbent c;
    })

  unfoldable pub explanations : ℕ → List CandidateRecord → Result Raised (List Explanation)
  unfolding explanation
  explanations index [] = ok []
  explanations index (c ∷ cs) = do
    e ← explanation index c
    es ← explanations (suc index) cs
    ok (e ∷ es)
