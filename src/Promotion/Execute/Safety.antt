-- ===== src/Promotion/Execute/Safety.antt =====
-- What a promotion run (scripts/promote_model.py) may do to the Registry, and what its exit
-- status says.
use us_flight_delay_mlops.Prelude.{ℕ, ◌≡◌, refl, Option, List, String, arith, ◌∙◌}
use us_flight_delay_mlops.Python.Result.{Result, ok, err}
use us_flight_delay_mlops.Python.Value.{Value}
use us_flight_delay_mlops.Promotion.Candidates.{CandidateRecord}
use us_flight_delay_mlops.Promotion.Policy.{PromotionPolicy}
use us_flight_delay_mlops.Promotion.Selector.{Outcome}
use us_flight_delay_mlops.Promotion.Registry
use us_flight_delay_mlops.Promotion.Registry.{Service, RegistryError, AliasState, World, points_at}
use us_flight_delay_mlops.Promotion.Execute.{
  Mode, dry_run, Arguments, Decision, Failure, act, execute, ◌>>=◌, lift, adapter, continue,
}

module _ (service : Service) (others : ℕ → service.State → service.State) (shown : Value → String)
    (policy : PromotionPolicy) where
  -- a run that links nothing, however it ends
  abbrev LinksNothing :
      {A : Type 0} → (World service others → Result Failure A × World service others) → Type 0
  LinksNothing m = (w : World service others) → (m w).1.linked ≡ w.linked

  module _ {A B : Type 0} (f : A → World service others → Result Failure B × World service others)
      (hf : (a : A) → LinksNothing (f a)) where
    continue_links :
        (w : World service others) (ending : Result Failure A × World service others)
        → ending.1.linked ≡ w.linked
        → (continue service others shown policy f ending).1.linked ≡ w.linked
    continue_links w (ok a, w') h = hf a w' ∙ h
    continue_links w (err e, w') h = h

    LinksNothing-bind :
        (m : World service others → Result Failure A × World service others)
        → LinksNothing m
        → LinksNothing (◌>>=◌ service others shown policy m f)
    unfolding ◌>>=◌
    LinksNothing-bind m hm w = continue_links w (m w) (hm w)

  LinksNothing-lift :
      {E A : Type 0} (g : E → Failure) (r : Result E A)
      → LinksNothing (lift service others shown policy g r)
  LinksNothing-lift g (ok a) w = refl
  LinksNothing-lift g (err e) w = refl

  LinksNothing-resolve :
      (path alias : String)
      → LinksNothing
          (adapter service others shown policy (Registry.resolve_alias service others path alias))
  unfolding Registry.resolve_alias
  LinksNothing-resolve path alias w = ground arith

  act_dry_run :
      (outcome : Outcome) (winner : Option CandidateRecord) (alias : String) (d : Decision)
      → LinksNothing (act service others shown policy dry_run outcome winner alias d)
  unfolding act
  act_dry_run outcome winner alias d w = refl

  act_links :
      (mode : Mode)
      → mode ≡ dry_run
      → (outcome : Outcome) (winner : Option CandidateRecord) (alias : String) (d : Decision)
      → LinksNothing (act service others shown policy mode outcome winner alias d)
  act_links mode h outcome winner alias d = rw h (act_dry_run outcome winner alias d)

  -- A dry run links nothing, however it ends.
  pub dry_run_links_nothing :
      (args : Arguments) (listed : Result RegistryError (List CandidateRecord))
      (w : World service others)
      → args.mode ≡ dry_run
      → (execute service others shown policy args listed w).1.linked ≡ w.linked
  unfolding execute
  dry_run_links_nothing args listed w h =
      LinksNothing-bind _
        (λ _.
          LinksNothing-bind _
            (λ candidates.
              LinksNothing-bind _
                (λ before.
                  LinksNothing-bind _
                    (λ selection. act_links args.mode h selection.outcome selection.winner _ _) _
                    (LinksNothing-lift _ _))
                _ (LinksNothing-resolve _ _))
            _ (LinksNothing-lift _ _))
        _ (LinksNothing-lift _ _) w
