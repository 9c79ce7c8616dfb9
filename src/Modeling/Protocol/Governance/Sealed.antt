-- ===== src/Modeling/Protocol/Governance/Sealed.antt =====
-- What the governance rules guarantee (src/flight_delay/modeling/v3/protocol.py,
-- `_validate_governance`).
use us_flight_delay_mlops.Prelude.{◌≡◌, ◌∙◌, ap, true, false, List, [], ◌∷◌, All, String}
use us_flight_delay_mlops.Prelude.Int.{pos}
use us_flight_delay_mlops.Python.Result.{ok}
use us_flight_delay_mlops.Python.Result.Ensures.{
  Ensures, Ensures-bind, Ensures-eq_ok, require-eq-ok,
}
use us_flight_delay_mlops.Python.Value.{Value, Items, Fields, bool, int, str, dict, field, end}
use us_flight_delay_mlops.Modeling.Checks.Laws.{
  look, Holds, look-section, section-Holds, sections-Holds, Ensures-end, expects-Says,
  expects-first, >>-first, >>-eq-ok,
}
use us_flight_delay_mlops.Modeling.Protocol.{list_of, is_in, dyadic}
use us_flight_delay_mlops.Modeling.Protocol.Governance.{
  prohibits, validate_periods, validate_november, validate_december, validate_release,
  validate_governance,
}

-- the list at the path has the text
pub record Lists (protocol : Value) (path : List String) (name : String) : Type 0 where
  pub items : Items
  pub is_list : list_of (look path protocol) ≡ ok items
  pub has : is_in (str name) items ≡ true

pub record PeriodsAreSealed (protocol : Value) : Type 0 where
  pub december_not_decoded :
      Holds protocol
        ("development_data" ∷ "december_2025_decoded_during_development" ∷ [])
        (bool false)
  pub test_split_forbidden :
      Lists protocol ("development_data" ∷ "forbidden_sources" ∷ []) "data/processed/test.parquet"
  pub december_prohibited :
      Holds protocol
        ("prohibited_periods" ∷ "december_2025" ∷ "development_access_prohibited" ∷ [])
        (bool true)
  pub test_prohibited :
      Holds protocol
        ("prohibited_periods" ∷ "historical_test_2026" ∷ "access_prohibited" ∷ [])
        (bool true)

-- at least 0.6 recall, 0.3 precision and 0.38 F1, and at most half of the flights predicted late
abbrev november_minima : Value
november_minima = dict (
    field "recall_min" (dyadic 5404319552844595 53) (
      field "precision_min" (dyadic 5404319552844595 54) (
        field "f1_min" (dyadic 3422735716801577 53)
          (field "predicted_positive_rate_max" (dyadic 1 1) end))))

pub record GatesAreKept (protocol : Value) : Type 0 where
  pub operating_point :
      Holds protocol
        ("november_selection" ∷ "acceptance_gates" ∷ "operating_point" ∷ [])
        november_minima
  pub gates_kept :
      Holds protocol
        ("november_selection" ∷ "acceptance_gates" ∷ "gates_relaxed_from_v2" ∷ [])
        (bool false)
  pub every_gate_mandatory :
      Holds protocol ("november_selection" ∷ "every_gate_mandatory" ∷ []) (bool true)

abbrev frozen_path : List String
frozen_path = "december_qualification" ∷ "prohibited_actions" ∷ []

abbrev frozen_actions : List String
frozen_actions = "refitting" ∷ "recalibration" ∷ "threshold_change" ∷ "candidate_switching" ∷ []

pub record DecemberIsSealed (protocol : Value) : Type 0 where
  pub closed : Holds protocol ("december_qualification" ∷ "development_may_open" ∷ []) (bool false)
  pub one_evaluation :
      Holds protocol ("december_qualification" ∷ "evaluation_count" ∷ []) (int (pos 1))
  pub frozen : All (Lists protocol frozen_path) frozen_actions

pub record ProductionIsKept (protocol : Value) : Type 0 where
  pub version :
      Holds protocol ("release" ∷ "production_version_after_v3_development" ∷ []) (str "v0")
  pub alias_kept : Holds protocol ("release" ∷ "production_alias_mutation" ∷ []) (bool false)
  pub images : Holds protocol ("release" ∷ "runtime_images_unchanged" ∷ []) (bool true)

-- What the rules say of the data that is kept from the development, of the gates and of production.
pub record IsSealed (protocol : Value) : Type 0 where
  pub periods : PeriodsAreSealed protocol
  pub gates : GatesAreKept protocol
  pub december : DecemberIsSealed protocol
  pub production : ProductionIsKept protocol

prohibits-Lists :
    (v : Value) (actions : List String) (protocol : Value) (path : List String)
    → look path protocol ≡ v
    → Ensures (λ (u : Unit {0}). All (Lists protocol path) actions) (prohibits v actions)
unfolding prohibits
prohibits-Lists v [] protocol path h = tt
prohibits-Lists v (action ∷ rest) protocol path h = Ensures-bind _ _ _ λ items made.
    Ensures-bind _ _ _ λ _ has. Ensures-end _ (prohibits v rest) λ more. (
      record { items = items; is_list = ap list_of h ∙ made; has = require-eq-ok _ _ has },
      Ensures-eq_ok (λ (u : Unit {0}). All (Lists protocol path) rest) _
          (prohibits-Lists v rest protocol path h) more,
    )

module _ (protocol : Fields) where
  periods_sealed :
      Ensures (λ (u : Unit {0}). PeriodsAreSealed (dict protocol)) (validate_periods protocol)
  unfolding validate_periods look
  periods_sealed = Ensures-bind _ _ _ λ development d. Ensures-bind _ _ _ λ _ _.
      Ensures-bind _ _ _ λ burn_in _. Ensures-bind _ _ _ λ _ _. Ensures-bind _ _ _ λ model_period _.
        Ensures-bind _ _ _ λ _ _. Ensures-bind _ _ _ λ _ decoded. Ensures-bind _ _ _ λ forbidden f.
          Ensures-bind _ _ _ λ _ has. Ensures-bind _ _ _ λ prohibited p.
            Ensures-bind _ _ _ λ december q. Ensures-bind _ _ _ λ _ closed.
              Ensures-bind _ _ _ λ historical t.
                Ensures-end (λ (u : Unit {0}). PeriodsAreSealed (dict protocol)) _
                  λ consumed. record {
                    december_not_decoded =
                        section-Holds "development_data" _ protocol _ _ d
                          (expects-first _ _ _ _ _ decoded);
                    test_split_forbidden = record {
                      items = forbidden;
                      is_list =
                          ap list_of (
                            look-section "development_data" protocol _ ("forbidden_sources" ∷ []) d)
                          ∙ f;
                      has = require-eq-ok _ _ has;
                    };
                    december_prohibited =
                        sections-Holds "prohibited_periods" "december_2025" _ protocol _ _ _ p q
                          (expects-first _ _ _ _ _ closed);
                    test_prohibited =
                        sections-Holds "prohibited_periods" "historical_test_2026" _ protocol _ _ _
                          p t (expects-first _ _ _ _ _ consumed);
                  }

  gates_kept : Ensures (λ (u : Unit {0}). GatesAreKept (dict protocol)) (validate_november protocol)
  unfolding validate_november
  gates_kept = Ensures-bind _ _ _ λ november n. Ensures-bind _ _ _ λ gates g.
      Ensures-bind _ _ _ λ _ kept. Ensures-bind _ _ _ λ objective _. Ensures-bind _ _ _ λ _ _.
        Ensures-end (λ (u : Unit {0}). GatesAreKept (dict protocol)) _
          λ mandatory.
            let says = expects-Says _ _ kept in
            record {
              operating_point =
                  sections-Holds "november_selection" "acceptance_gates" _ protocol _ _ _ n g
                    says.1.0;
              gates_kept =
                  sections-Holds "november_selection" "acceptance_gates" _ protocol _ _ _ n g
                    (expects-first _ _ _ _ _ kept);
              every_gate_mandatory =
                  section-Holds "november_selection" _ protocol _ _ n
                    (expects-first _ _ _ _ _ mandatory);
            }

  december_sealed :
      Ensures (λ (u : Unit {0}). DecemberIsSealed (dict protocol)) (validate_december protocol)
  unfolding validate_december look
  december_sealed = Ensures-bind _ _ _ λ december d. Ensures-bind _ _ _ λ _ lines.
      Ensures-bind _ _ _ λ _ actions. Ensures-bind _ _ _ λ fresh _.
        Ensures-end (λ (u : Unit {0}). DecemberIsSealed (dict protocol)) _
          λ _.
            let says = expects-Says _ _ lines in
            record {
              closed = section-Holds "december_qualification" _ protocol _ _ d says.0;
              one_evaluation = section-Holds "december_qualification" _ protocol _ _ d says.1.1.0;
              frozen =
                  Ensures-eq_ok
                    (λ (u : Unit {0}). All (Lists (dict protocol) frozen_path) frozen_actions) _
                    (prohibits-Lists _ _ (dict protocol) frozen_path (
                      look-section "december_qualification" protocol _ ("prohibited_actions" ∷ [])
                        d))
                    actions;
            }

  production_kept :
      Ensures (λ (u : Unit {0}). ProductionIsKept (dict protocol)) (validate_release protocol)
  unfolding validate_release
  production_kept = Ensures-bind _ _ _ λ release r. Ensures-bind _ _ _ λ _ lines.
      Ensures-bind _ _ _ λ expansion _.
        Ensures-end (λ (u : Unit {0}). ProductionIsKept (dict protocol)) _
          λ _.
            let says = expects-Says _ _ lines in
            record {
              version = section-Holds "release" _ protocol _ _ r says.0;
              alias_kept = section-Holds "release" _ protocol _ _ r says.1.0;
              images = section-Holds "release" _ protocol _ _ r says.1.1.0;
            }

  -- Validated governance rules keep December and the test split from the development, say that no
  -- gate is relaxed and every gate is mandatory, have the frozen operating gates of November, open
  -- December for one evaluation without refitting, recalibration, change of threshold or switch of
  -- candidate, and leave production at v0.
  pub validate_governance-IsSealed : validate_governance protocol ≡ ok tt → IsSealed (dict protocol)
  unfolding validate_governance
  validate_governance-IsSealed h =
      let p = >>-first _ _ h in
      let h' = >>-eq-ok _ _ h in
      let h'' = >>-eq-ok _ _ h' in
      record {
        periods =
            Ensures-eq_ok (λ (u : Unit {0}). PeriodsAreSealed (dict protocol)) _ periods_sealed p;
        gates =
            Ensures-eq_ok (λ (u : Unit {0}). GatesAreKept (dict protocol)) _ gates_kept
              (>>-first _ _ h');
        december =
            Ensures-eq_ok (λ (u : Unit {0}). DecemberIsSealed (dict protocol)) _ december_sealed
              (>>-first _ _ h'');
        production =
            Ensures-eq_ok (λ (u : Unit {0}). ProductionIsKept (dict protocol)) _ production_kept
              (>>-eq-ok _ _ h'');
      }
