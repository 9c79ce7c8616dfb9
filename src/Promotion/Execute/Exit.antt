-- ===== src/Promotion/Execute/Exit.antt =====
-- What the exit status of scripts/promote_model.py says.
use us_flight_delay_mlops.Prelude.{
  ℕ, ◌≡◌, refl, Bool, true, false, Option, none, some, List, String, arith, sym, ◌∙◌,
}
use us_flight_delay_mlops.Prelude.Compare.{IsPreorder-compare_codes}
use us_flight_delay_mlops.Python.Result.{Result, ok, err}
use mathlib.Core.Path.{subst}
use us_flight_delay_mlops.Python.Value.{Value}
use us_flight_delay_mlops.Promotion.Candidates.{CandidateRecord, immutable_identity}
use us_flight_delay_mlops.Promotion.Policy.{PromotionPolicy}
use us_flight_delay_mlops.Promotion.Selector.{
  Outcome, promote, retain_current, blocked_invalid_metadata, no_eligible_candidate, is_incumbent,
}
use us_flight_delay_mlops.Promotion.Selection.Outcomes.{Means, outcome-Means}
use us_flight_delay_mlops.Promotion.Registry
use us_flight_delay_mlops.Promotion.Registry.{
  Service, RegistryError, AliasState, World, points_at, alias_identity,
}
use us_flight_delay_mlops.Promotion.Registry.Moves.{promote-points_at}
use us_flight_delay_mlops.Promotion.Execute.{
  Mode, dry_run, apply, Arguments, Decision, Failure, act, execute, exit_status, points_at?,
  continue, lift, adapter, ◌>>=◌, incumbent_of, status_of,
}

-- the alias, as last read, points at the winner
abbrev pub IsAtWinner : Decision → Type 0
IsAtWinner d =
    (winner : CandidateRecord) × (a : AliasState) × (d.selection.winner ≡ some winner)
    × (d.after ≡ some a)
    × (points_at a winner ≡ true)

points_at-is_incumbent :
    (a : AliasState) (c : CandidateRecord)
    → is_incumbent (some (alias_identity a)) c ≡ true
    → points_at a c ≡ true
unfolding is_incumbent points_at
points_at-is_incumbent a c h =
    ground (arith, IsPreorder-compare_codes.flips (immutable_identity c) (alias_identity a))

points_at?-some :
    (before : Option AliasState) (winner : Option CandidateRecord)
    → points_at? before winner ≡ true
    → (c : CandidateRecord) × (a : AliasState) × (winner ≡ some c)
      × (before ≡ some a)
      × (points_at a c ≡ true)
points_at?-some (some a) (some c) h = (c, a, refl, refl, h)
points_at?-some (some a) none h = cc
points_at?-some none winner h = cc

incumbent_some :
    (before : Option AliasState) (c : CandidateRecord)
    → is_incumbent (incumbent_of before) c ≡ true
    → (a : AliasState) × (before ≡ some a) × (points_at a c ≡ true)
unfolding is_incumbent
incumbent_some none c h = cc
incumbent_some (some a) c h = (a, refl, points_at-is_incumbent a c (unfold is_incumbent in h))

status_zero :
    (winner : Option CandidateRecord) (verified : Bool)
    → status_of winner verified ≡ 0
    → (verified ≡ true) × ((c : CandidateRecord) × (winner ≡ some c))
status_zero (some c) true h = (refl, (c, refl))
status_zero (some c) false h = absurd (omega arith)
status_zero none verified h = absurd (omega arith)

module _ (service : Service) (others : ℕ → service.State → service.State) (shown : Value → String)
    (policy : PromotionPolicy) where
  abbrev Yields : {A : Type 0} → (A → Type 0) → Result Failure A × World service others → Type 0
  Yields P (ok a, w) = P a
  Yields P (err e, w) = Unit

  Yields-bind :
      {A B : Type 0} (P : B → Type 0)
      (m : World service others → Result Failure A × World service others)
      (f : A → World service others → Result Failure B × World service others)
      (w : World service others)
      → ((a : A) (w' : World service others) → m w ≡ (ok a, w') → Yields P (f a w'))
      → Yields P (◌>>=◌ service others shown policy m f w)
  unfolding ◌>>=◌
  Yields-bind {A} {B} P m f w h = after (m w) refl
    where
      after :
          (ending : Result Failure A × World service others)
          → m w ≡ ending
          → Yields P (continue service others shown policy f ending)
      after (ok a, w') e = h a w' e
      after (err x, w') e = tt

  -- status 0 is given only where the alias is at the winner
  abbrev IsHonest : Decision → Type 0
  IsHonest d = exit_status service others shown policy (ok d) ≡ 0 → IsAtWinner d

  -- the decision before the branches on the mode and the outcome
  abbrev IsReady : Decision → Type 0
  IsReady d =
      (d.after ≡ d.before)
      × (d.verified ≡ points_at? d.before d.selection.winner)
      × Means shown policy (incumbent_of d.before) d.selection d.selection.outcome

  exit_zero :
      (d : Decision)
      → exit_status service others shown policy (ok d) ≡ 0
      → (d.verified ≡ true) × ((c : CandidateRecord) × (d.selection.winner ≡ some c))
  unfolding exit_status
  exit_zero d h = status_zero d.selection.winner d.verified h

  ready-IsHonest : (d : Decision) → IsReady d → IsHonest d
  ready-IsHonest d (same, verified, _) h =
      let (c, a, is_winner, is_before, points) =
        points_at?-some d.before d.selection.winner (sym verified ∙ (exit_zero d h).0) in
      (c, a, is_winner, same ∙ is_before, points)

  retained-IsAtWinner :
      (d : Decision) → IsReady d → d.selection.outcome ≡ retain_current → IsAtWinner d
  retained-IsAtWinner d (same, _, means) h =
      let (c, is_winner, incumbent, _) =
        subst (Means shown policy (incumbent_of d.before) d.selection) h means in
      let (a, is_before, points) = incumbent_some d.before c incumbent in
      (c, a, is_winner, same ∙ is_before, points)

  moved-IsHonest :
      (winner : CandidateRecord) (alias : String) (d : Decision) (w : World service others)
      → d.selection.winner ≡ some winner
      → Yields IsHonest (act service others shown policy apply promote (some winner) alias d w)
  unfolding act
  moved-IsHonest winner alias d w is = Yields-bind IsHonest _ _ w λ after w' called h.
      let moved =
        promote-points_at service others winner alias d.before w
          (adapter_ok (Registry.promote service others winner alias d.before) w called) in
      (winner, after, is, refl, moved)
    where
      adapter_ok :
          (m : World service others → Result RegistryError AliasState × World service others)
          (w : World service others) {a : AliasState} {w' : World service others}
          → adapter service others shown policy m w ≡ (ok a, w')
          → m w ≡ (ok a, w')
      adapter_ok m w e = ground arith

  act-IsHonest :
      (mode : Mode) (outcome : Outcome) (winner : Option CandidateRecord) (alias : String)
      (d : Decision) (w : World service others)
      → IsReady d
      → d.selection.outcome ≡ outcome
      → d.selection.winner ≡ winner
      → Yields IsHonest (act service others shown policy mode outcome winner alias d w)
  unfolding act
  act-IsHonest apply promote (some winner) alias d w ready is_outcome is_winner =
      moved-IsHonest winner alias d w is_winner
  act-IsHonest apply promote none alias d w ready is_outcome is_winner = ready-IsHonest d ready
  act-IsHonest apply retain_current winner alias d w ready is_outcome is_winner =
      λ h. retained-IsAtWinner d ready is_outcome
  act-IsHonest apply blocked_invalid_metadata winner alias d w ready is_outcome is_winner =
      ready-IsHonest d ready
  act-IsHonest apply no_eligible_candidate winner alias d w ready is_outcome is_winner =
      ready-IsHonest d ready
  act-IsHonest dry_run outcome winner alias d w ready is_outcome is_winner = ready-IsHonest d ready

  lift_ok :
      {E A : Type 0} (g : E → Failure) (r : Result E A) (w : World service others) {a : A}
      {w' : World service others}
      → lift service others shown policy g r w ≡ (ok a, w')
      → r ≡ ok a
  lift_ok g (ok b) w h = cc
  lift_ok g (err e) w h = cc

  execute-Yields :
      (args : Arguments) (listed : Result RegistryError (List CandidateRecord))
      (w : World service others)
      → Yields IsHonest (execute service others shown policy args listed w)
  unfolding execute
  execute-Yields args listed w = Yields-bind IsHonest _ _ w λ _ w₁ _.
      Yields-bind IsHonest _ _ w₁ λ candidates w₂ _. Yields-bind IsHonest _ _ w₂ λ before w₃ _.
        Yields-bind IsHonest _ _ w₃ λ selection w₄ selected.
          act-IsHonest args.mode selection.outcome selection.winner _ _ w₄
            (
              refl,
              refl,
              outcome-Means shown policy (incumbent_of before) _ (lift_ok _ _ w₃ selected),
            )
            refl refl

  -- Exit status 0 is never given by mistake: in a dry run as in an applied one it means that
  -- there is a winner and that the alias, as the service last answered, points at it by path,
  -- version and digest.
  pub exit_status_honest :
      (args : Arguments) (listed : Result RegistryError (List CandidateRecord))
      (w : World service others) {d : Decision} {w' : World service others}
      → execute service others shown policy args listed w ≡ (ok d, w')
      → exit_status service others shown policy (ok d) ≡ 0
      → IsAtWinner d
  exit_status_honest args listed w h = subst (Yields IsHonest) h (execute-Yields args listed w)
