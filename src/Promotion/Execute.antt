-- ===== src/Promotion/Execute.antt =====
-- scripts/promote_model.py, `execute` and `main`: one controlled promotion decision. Writing the
-- audit record to a file, logging it and printing the summary are not modelled; what the record
-- says of the decision is the result here.
pub mod Safety
pub mod Exit
use us_flight_delay_mlops.Prelude.{
  ℕ, Bool, true, false, ◌&&◌, Option, none, some, List, [], ◌∷◌, map, String, filter, ◌=ₛ◌,
  if◌then◌else◌,
}
use us_flight_delay_mlops.Prelude.Text.{is_blank}
use us_flight_delay_mlops.Python.Result.{Result, ok, err}
use us_flight_delay_mlops.Python.Value.{Value}
use us_flight_delay_mlops.Promotion.Keys.{Raised}
use us_flight_delay_mlops.Promotion.Candidates.{CandidateRecord, immutable_identity}
use us_flight_delay_mlops.Promotion.Policy.{PolicyError, PromotionPolicy, validate_target_alias}
use us_flight_delay_mlops.Promotion.Selector.{
  Outcome, promote, retain_current, SelectionResult, is_incumbent,
}
use us_flight_delay_mlops.Promotion.Selection.{parsed, select_candidates}
use us_flight_delay_mlops.Promotion.Registry
use us_flight_delay_mlops.Promotion.Registry.{
  Service, RegistryError, AliasState, World, alias_identity, points_at, resolve_alias,
}

pub data Mode : Type 0 where
  dry_run apply : Mode

pub record Arguments : Type 0 where
  pub mode : Mode
  pub target_alias : Option String
  pub candidate_version : Option String

-- `actual_action` of the audit record
pub data ActualAction : Type 0 where
  none_dry_run none_at_all alias_moved none_already_current : ActualAction

-- what the audit record says of the run
pub record Decision : Type 0 where
  pub selection : SelectionResult
  pub before : Option AliasState
  pub after : Option AliasState
  pub actual_action : ActualAction
  pub verified : Bool

-- the exceptions that reach `main`
pub data Failure : Type 0 where
  policy_error : PolicyError → Failure
  registry_error : RegistryError → Failure
  selection_error : Raised → Failure

-- `a or b` of an optional text
abbrev pub text_or : Option String → String → String
text_or none default = default
text_or (some s) default = if is_blank s then default else s

-- the filter by `args.candidate_version`, where it is given and not empty
unfoldable pub of_version : Option String → List CandidateRecord → List CandidateRecord
of_version none cs = cs
of_version (some v) cs =
    if is_blank v then cs else filter (λ (c : CandidateRecord). c.registry_version =ₛ v) cs

-- `before.immutable_identity if before else None`
abbrev pub incumbent_of : Option AliasState → Option (List ℕ)
incumbent_of none = none
incumbent_of (some a) = some (alias_identity a)

-- `0 if selection.winner is not None and verified else 2`
abbrev pub status_of : Option CandidateRecord → Bool → ℕ
status_of (some winner) true = 0
status_of (some winner) false = 2
status_of none verified = 2

-- `winner is not None and before is not None` and their identities are equal
abbrev pub points_at? : Option AliasState → Option CandidateRecord → Bool
points_at? (some a) (some c) = points_at a c
points_at? _ _ = false

module _ (service : Service) (others : ℕ → service.State → service.State) (shown : Value → String)
    (policy : PromotionPolicy) where
  abbrev pub Run : Type 0 → Type 0
  Run A = World service others → Result Failure A × World service others

  -- a raise ends the run, and keeps what was done
  abbrev pub continue :
      {A B : Type 0}
      → (A → Run B)
      → Result Failure A × World service others
      → Result Failure B × World service others
  continue f (ok a, w) = f a w
  continue f (err e, w) = (err e, w)

  infixl 5 ◌>>=◌ ◌>>◌
  unfoldable pub ◌>>=◌ : {A B : Type 0} → Run A → (A → Run B) → Run B
  ◌>>=◌ m f w = continue f (m w)

  abbrev pub ◌>>◌ : {A B : Type 0} → Run A → Run B → Run B
  m >> k = m >>= λ _. k

  abbrev pub pure : {A : Type 0} → A → Run A
  pure a w = (ok a, w)

  -- a call that may raise and does not touch the Registry
  abbrev pub lift {ℓ} : {E : Type ℓ} {A : Type 0} → (E → Failure) → Result E A → Run A
  lift f (ok a) w = (ok a, w)
  lift f (err e) w = (err (f e), w)

  -- a call of the adapter
  abbrev pub adapter : {A : Type 0} → Registry.Action service others A → Run A
  adapter m w =
      let (r, w') = m w in elim r [ ok a ↦ (ok a, w') | err e ↦ (err (registry_error e), w') ]

  -- the branches on the mode and the outcome
  unfoldable pub act : Mode → Outcome → Option CandidateRecord → String → Decision → Run Decision
  act apply promote (some winner) alias d = do
    after ← adapter (Registry.promote service others winner alias d.before)
    pure (record d {
      after = some after;
      actual_action = alias_moved;
      verified = points_at after winner;
    })
  act apply retain_current winner alias d =
      pure (record d { actual_action = none_already_current; verified = true })
  act mode outcome winner alias d = pure d

  -- `execute`; `listed` is what `adapter.list_candidates(policy)` returns or raises
  unfoldable pub execute : Arguments → Result RegistryError (List CandidateRecord) → Run Decision
  execute args listed = do
    let alias = text_or args.target_alias policy.target_alias
    lift policy_error (validate_target_alias policy alias)
    candidates ← lift registry_error listed
    before ← adapter (resolve_alias service others policy.registry_collection alias)
    let incumbent = incumbent_of before
    selection ← lift selection_error (
        select_candidates shown policy incumbent
          (map parsed (of_version args.candidate_version candidates)))
    let decision : Decision = record {
      selection = selection;
      before = before;
      after = before;
      actual_action = elim args.mode [ dry_run ↦ none_dry_run | apply ↦ none_at_all ];
      verified = points_at? before selection.winner;
    }
    act args.mode selection.outcome selection.winner alias decision

  -- the exit status of `main`
  unfoldable pub exit_status : Result Failure Decision → ℕ
  exit_status (ok d) = status_of d.selection.winner d.verified
  exit_status (err e) = 1
