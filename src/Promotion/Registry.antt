-- ===== src/Promotion/Registry.antt =====
-- src/flight_delay/promotion/wandb_registry.py: resolving and moving a Registry alias. The W&B
-- service is a parameter; other clients may act on it before each call of ours.
pub mod Moves
use us_flight_delay_mlops.Prelude.{
  ℕ, suc, ◌+◌, Bool, true, false, not, ◌&&◌, Option, none, some, List, [], ◌∷◌, ◌++◌, String, ◌=ₛ◌,
  if◌then◌else◌,
}
use us_flight_delay_mlops.Prelude.Compare.{compare_codes}
use us_flight_delay_mlops.Prelude.Text.{codes}
use us_flight_delay_mlops.Python.Result.{Result, ok, err}
use us_flight_delay_mlops.Promotion.Candidates.{CandidateRecord, immutable_identity}
use us_flight_delay_mlops.Promotion.Selector.{is_eq}

-- what the adapter reads of an artifact; `source_digest` is that of the source of a link
pub record Artifact : Type 0 where
  pub version : String
  pub digest : String
  pub source_digest : String

-- how a link and its wait end: no link is made, or one is and the wait fails, or one is made
pub data Linking (S : Type 0) : Type 0 where
  unmade : Linking S
  unconfirmed confirmed : S → Linking S

-- how a look-up ends: an artifact, the service's "not found", or any other exception
pub data Lookup : Type 0 where
  found : Artifact → Lookup
  not_found failed : Lookup

-- The service: its state, `api.artifact("path:name")`, and `artifact.link(path, aliases=[alias])`
-- with the wait.
pub record Service : Type 1 where
  pub State : Type 0
  pub artifact : State → String → String → Lookup
  pub link : State → Artifact → String → String → Linking State

-- `RegistryAdapterError`, by its message
pub data RegistryError : Type 0 where
  cannot_resolve_alias precondition_changed digest_changed mutation_failed : RegistryError
  verification_failed : RegistryError

pub record AliasState : Type 0 where
  pub registry_path : String
  pub alias : String
  pub version : String
  pub digest : String
  pub source_digest : String

-- `AliasState.immutable_identity`
unfoldable pub alias_identity : AliasState → List ℕ
alias_identity a = codes a.registry_path ++ b':' ∷ (codes a.version ++ b'@' ∷ codes a.digest)

-- `==` of the dataclass
unfoldable pub same_alias : AliasState → AliasState → Bool
same_alias a b =
    a.registry_path =ₛ b.registry_path
    && a.alias =ₛ b.alias
    && a.version =ₛ b.version
    && a.digest =ₛ b.digest
    && a.source_digest =ₛ b.source_digest

unfoldable pub same_alias? : Option AliasState → Option AliasState → Bool
same_alias? none none = true
same_alias? (some a) (some b) = same_alias a b
same_alias? _ _ = false

-- `state.immutable_identity == candidate.immutable_identity`
unfoldable pub points_at : AliasState → CandidateRecord → Bool
points_at a c = is_eq (compare_codes (alias_identity a) (immutable_identity c))

-- a link that the adapter made: the path, the alias and the version
abbrev pub Linked : Type 0
Linked = String × String × String

module _ (service : Service) (others : ℕ → service.State → service.State) where
  open service use {State, artifact, link}

  -- the service's state, the number of calls so far, and the links that the adapter made
  pub record World : Type 0 where
    pub state : State
    pub calls : ℕ
    pub linked : List Linked

  -- An action of the adapter. What was done before a raise stays done.
  abbrev pub Action : Type 0 → Type 0
  Action A = World → Result RegistryError A × World

  infixl 5 ◌>>=◌ ◌>>◌
  abbrev pub ◌>>=◌ : {A B : Type 0} → Action A → (A → Action B) → Action B
  ◌>>=◌ m f w = let (r, w') = m w in elim r [ ok a ↦ f a w' | err e ↦ (err e, w') ]

  abbrev pub ◌>>◌ : {A B : Type 0} → Action A → Action B → Action B
  m >> k = m >>= λ _. k

  abbrev pub pure : {A : Type 0} → A → Action A
  pure a w = (ok a, w)

  abbrev pub raise_if : Bool → RegistryError → Action (Unit {0})
  raise_if b e w = (if b then err e else ok tt, w)

  -- one call that reads: the others act first
  abbrev pub look_up : String → String → Action Lookup
  look_up path name w =
      let state = others w.calls w.state in
      (ok (artifact state path name), record w { state = state; calls = w.calls + 1 })

  abbrev pub state_of : String → String → Artifact → AliasState
  state_of path alias a = record {
    registry_path = path;
    alias = alias;
    version = a.version;
    digest = a.digest;
    source_digest = a.source_digest;
  }

  abbrev pub resolved : String → String → Lookup → Action (Option AliasState)
  resolved path alias (found a) w = (ok (some (state_of path alias a)), w)
  resolved path alias not_found w = (ok none, w)
  resolved path alias failed w = (err cannot_resolve_alias, w)

  -- `resolve_alias`
  unfoldable pub resolve_alias : String → String → Action (Option AliasState)
  resolve_alias path alias = do answer ← look_up path alias; resolved path alias answer

  abbrev pub fetched : Lookup → Action Artifact
  fetched (found a) w = (ok a, w)
  fetched _ w = (err mutation_failed, w)

  -- `artifact.link(path, aliases=[alias])` and the wait
  abbrev pub link_alias : Artifact → String → String → Action (Unit {0})
  link_alias a path alias w =
      let state = others w.calls w.state in
      elim (link state a path alias) [
        | unmade ↦ (err mutation_failed, record w { state = state; calls = w.calls + 1 })
        | unconfirmed state' ↦ (
          err mutation_failed,
          record {
            state = state';
            calls = w.calls + 1;
            linked = (path, alias, a.version) ∷ w.linked;
          },
        )
        | confirmed state' ↦ (
          ok tt,
          record {
            state = state';
            calls = w.calls + 1;
            linked = (path, alias, a.version) ∷ w.linked;
          },
        )
      ]

  abbrev pub is_at : Option AliasState → CandidateRecord → Bool
  is_at none c = false
  is_at (some a) c = points_at a c

  abbrev pub verified : Option AliasState → CandidateRecord → Action AliasState
  verified none c w = (err verification_failed, w)
  verified (some a) c w = (if points_at a c then ok a else err verification_failed, w)

  -- the part of `promote` that changes the Registry
  unfoldable pub move : CandidateRecord → String → Action AliasState
  unfolding resolve_alias
  move candidate alias = do
    answer ← look_up candidate.registry_path candidate.registry_version
    target ← fetched answer
    raise_if (not (target.digest =ₛ candidate.registry_digest)) digest_changed
    link_alias target candidate.registry_path alias
    after ← resolve_alias candidate.registry_path alias
    verified after candidate

  -- `promote`, once the alias is read
  unfoldable pub promote_from :
      CandidateRecord → String → Option AliasState → Option AliasState → Action AliasState
  unfolding move
  promote_from candidate alias expected (some current) =
      if points_at current candidate
      then pure current
      else if not (same_alias? (some current) expected)
      then (λ w. (err precondition_changed, w))
      else move candidate alias
  promote_from candidate alias expected none =
      if not (same_alias? none expected)
      then (λ w. (err precondition_changed, w))
      else move candidate alias

  unfoldable pub promote : CandidateRecord → String → Option AliasState → Action AliasState
  unfolding resolve_alias
  promote candidate alias expected = do
    current ← resolve_alias candidate.registry_path alias
    promote_from candidate alias expected current
