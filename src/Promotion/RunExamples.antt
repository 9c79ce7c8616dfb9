-- ===== src/Promotion/RunExamples.antt =====
-- The promotion script run on a small Registry, and its theorems at these runs.
use us_flight_delay_mlops.Prelude.{
  ℕ, ◌≡◌, refl, true, Option, none, some, List, [], ◌∷◌, map, ◌↔◌, ◌∙◌, ap, filter,
}
use us_flight_delay_mlops.Prelude.Compare.{compare_codes}
use us_flight_delay_mlops.Prelude.Names.{member, compare_text}
use us_flight_delay_mlops.Prelude.Sort.{sort_by}
use us_flight_delay_mlops.Python.Float.{float_of_int}
use us_flight_delay_mlops.Python.Result.{ok}
use us_flight_delay_mlops.Promotion.Candidates.{immutable_identity}
use us_flight_delay_mlops.Promotion.Policy.{metric_names, validate_target_alias}
use us_flight_delay_mlops.Promotion.Registry.{World, alias_identity, points_at, resolve_alias}
use us_flight_delay_mlops.Promotion.Selector.{
  SelectionResult, is_incumbent, rank_value, metric_of, gate_reasons, gate_failures, gate_of,
  missing_metrics,
}
use us_flight_delay_mlops.Promotion.Selector.Gates.{IsAdmissible, gate_reasons_iff}
use us_flight_delay_mlops.Promotion.Selector.Order.{total_order, rank_order, tie_rank}
use us_flight_delay_mlops.Promotion.Selection.{parsed, select_candidates}
use us_flight_delay_mlops.Promotion.Selection.Returns.{
  OneIncumbent, passes, head, select_candidates_returns,
}
use us_flight_delay_mlops.Promotion.Execute.{
  ◌>>=◌, Arguments, Decision, dry_run, none_dry_run, act, execute, exit_status, of_version,
  points_at?,
}
use us_flight_delay_mlops.Promotion.Execute.Safety.{dry_run_links_nothing}
use us_flight_delay_mlops.Promotion.Execute.Exit.{IsAtWinner, exit_status_honest}
use us_flight_delay_mlops.Promotion.Examples.{
  old_version, new_version, policy, shown, both, both-IsValid,
}
use us_flight_delay_mlops.Promotion.RegistryExamples.{artifact_of, service, nobody, start, alias_at}

abbrev arguments : Arguments
arguments = record { mode = dry_run; target_alias = none; candidate_version = none }

dry_run_links_nothing_example :
    (execute service nobody shown policy arguments (ok both) start).1.linked ≡ []
dry_run_links_nothing_example =
    dry_run_links_nothing service nobody shown policy arguments (ok both) start refl

gate_reasons_iff_example : (gate_reasons new_version policy ≡ []) ↔ IsAdmissible new_version policy
gate_reasons_iff_example = gate_reasons_iff new_version policy

abbrev serving_new : World service nobody
serving_new = record { state = artifact_of "v1"; calls = 0; linked = [] }

abbrev after_run : World service nobody
after_run = record { state = artifact_of "v1"; calls = 1; linked = [] }

abbrev new_incumbent : Option (List ℕ)
new_incumbent = some (alias_identity (alias_at "v1"))

one_incumbent : OneIncumbent new_incumbent both
unfolding is_incumbent immutable_identity compare_codes alias_identity
one_incumbent = ((refl, tt), (tt, tt))

abbrev selection : SelectionResult
selection =
    (select_candidates_returns policy new_incumbent shown both refl both-IsValid one_incumbent).0

selection_done : select_candidates shown policy new_incumbent (map parsed both) ≡ ok selection
selection_done =
    (select_candidates_returns policy new_incumbent shown both refl both-IsValid one_incumbent).1

ranking_runs :
    sort_by (total_order policy new_incumbent) (filter (passes policy) both)
    ≡ new_version ∷ old_version ∷ []
unfolding sort_by total_order rank_order rank_value metric_of float_of_int gate_reasons
    gate_failures gate_of missing_metrics metric_names member tie_rank is_incumbent
    immutable_identity compare_codes compare_text alias_identity
ranking_runs = refl

selection_winner : selection.winner ≡ some new_version
selection_winner =
    (select_candidates_returns policy new_incumbent shown both refl both-IsValid one_incumbent).2.2
    ∙ ap head ranking_runs

points_at_new : points_at (alias_at "v1") new_version ≡ true
unfolding points_at alias_identity immutable_identity compare_codes
points_at_new = refl

abbrev decision : Decision
decision = record {
  selection = selection;
  before = some (alias_at "v1");
  after = some (alias_at "v1");
  actual_action = none_dry_run;
  verified = points_at? (some (alias_at "v1")) selection.winner;
}

run_done :
    execute service nobody shown policy arguments (ok both) serving_new ≡ (ok decision, after_run)
unfolding execute act ◌>>=◌ of_version validate_target_alias resolve_alias member
run_done = rw selection_done refl

run_status : exit_status service nobody shown policy (ok decision) ≡ 0
unfolding exit_status
run_status = rw selection_winner (rw points_at_new refl)

exit_status_honest_example : IsAtWinner decision
exit_status_honest_example =
    exit_status_honest service nobody shown policy arguments (ok both) serving_new run_done
      run_status
