-- ===== src/Promotion/Registry/Moves.antt =====
-- What `promote` (src/flight_delay/promotion/wandb_registry.py) guarantees, whatever other clients
-- of the Registry do between its calls.
use us_flight_delay_mlops.Prelude.{
  ℕ, ◌+◌, ◌≡◌, refl, sym, ap, eq_iff, true, false, Option, none, some, List, ◌∷◌, String, arith,
  ◌⊎◌, inl, inr, ◌=ₛ◌, Bool-cases,
}
use mathlib.Core.Path.{subst}
use us_flight_delay_mlops.Python.Result.{Result, ok, err}
use us_flight_delay_mlops.Promotion.Candidates.{CandidateRecord}
use us_flight_delay_mlops.Promotion.Registry.{
  Artifact, Lookup, found, not_found, failed, Service, RegistryError, cannot_resolve_alias,
  AliasState, Linked, World, same_alias, same_alias?, points_at, state_of, resolved, resolve_alias,
  move, promote_from, promote, ◌>>=◌,
}

-- the equality of the dataclass is that of its fields
same_alias-eq : (a b : AliasState) → same_alias a b ≡ true → a ≡ b
unfolding same_alias
same_alias-eq a b h =
    let path = (eq_iff a.registry_path b.registry_path).0 (ground arith) in
    let name = (eq_iff a.alias b.alias).0 (ground arith) in
    let version = (eq_iff a.version b.version).0 (ground arith) in
    let digest = (eq_iff a.digest b.digest).0 (ground arith) in
    let source = (eq_iff a.source_digest b.source_digest).0 (ground arith) in
    λ i. record {
      registry_path = path i;
      alias = name i;
      version = version i;
      digest = digest i;
      source_digest = source i;
    }

same_alias?-eq :
    (a : AliasState) (expected : Option AliasState)
    → same_alias? (some a) expected ≡ true
    → expected ≡ some a
unfolding same_alias?
same_alias?-eq a none h = cc
same_alias?-eq a (some b) h = ap some (sym (same_alias-eq a b h))

none_same : (expected : Option AliasState) → same_alias? none expected ≡ true → expected ≡ none
unfolding same_alias?
none_same none h = refl
none_same (some b) h = cc

module _ (service : Service) (others : ℕ → service.State → service.State)
    (candidate : CandidateRecord) (alias : String) where
  abbrev Ending : Type 0
  Ending = Result RegistryError AliasState × World service others

  -- an alias that is returned points at the candidate
  abbrev Points : Ending → Type 0
  Points (ok a, w) = points_at a candidate ≡ true
  Points (err e, w) = Unit

  -- Where the links made before were `before`, no link was made, or one was, to an artifact with
  -- the candidate's digest.
  abbrev pub LinksAtMost : List Linked → Ending → Type 0
  LinksAtMost before (r, w) =
      (w.linked ≡ before)
      ⊎ ((a : Artifact) × (a.digest =ₛ candidate.registry_digest ≡ true)
          × (w.linked ≡ (candidate.registry_path, alias, a.version) ∷ before))

  move-Points : (w : World service others) → Points (move service others candidate alias w)
  unfolding move
  move-Points w = ground arith

  move_links :
      (w : World service others) → LinksAtMost w.linked (move service others candidate alias w)
  unfolding move
  move_links w = ground arith

  from_Points :
      (expected current : Option AliasState) (w : World service others)
      → Points (promote_from service others candidate alias expected current w)
  unfolding promote_from
  from_Points expected none w = ground (arith, move-Points w)
  from_Points expected (some a) w = ground (arith, move-Points w)

  resolve_cases :
      (w : World service others)
      → let (r, w') = resolve_alias service others candidate.registry_path alias w in
        (w'.linked ≡ w.linked) × (w'.calls ≡ w.calls + 1) × (w'.state ≡ others w.calls w.state)
  unfolding resolve_alias
  resolve_cases w = ground arith

  from_links :
      (expected current : Option AliasState) (w : World service others)
      → LinksAtMost w.linked (promote_from service others candidate alias expected current w)
  unfolding promote_from
  from_links expected none w = elim (Bool-cases (same_alias? none expected)) [
    | inl same ↦ rw same (move_links w)
    | inr other ↦ rw other (inl refl)
  ]
  from_links expected (some a) w = elim (Bool-cases (points_at a candidate)) [
    | inl at ↦ rw at (inl refl)
    | inr away ↦ elim (Bool-cases (same_alias? (some a) expected)) [
      | inl same ↦ rw (away, same) (move_links w)
      | inr other ↦ rw (away, other) (inl refl)
    ]
  ]

  module _ (expected : Option AliasState) (w : World service others) where
    -- the world after the alias is read
    abbrev read : World service others
    read = record w { state = others w.calls w.state; calls = w.calls + 1 }

    abbrev answer : Lookup
    answer = service.artifact (others w.calls w.state) candidate.registry_path alias

    -- the rest of `promote`, on the answer that it read
    after_read : Lookup → Ending
    after_read (found a) =
        promote_from service others candidate alias expected
          (some (state_of service others candidate.registry_path alias a)) read
    after_read not_found = promote_from service others candidate alias expected none read
    after_read failed = (err cannot_resolve_alias, read)

    resolved_step :
        (l : Lookup)
        → ◌>>=◌ service others
            (resolved service others candidate.registry_path alias l)
            (promote_from service others candidate alias expected)
            read
          ≡ after_read l
    unfolding after_read
    resolved_step (found a) = refl
    resolved_step not_found = refl
    resolved_step failed = refl

    promote-after_read : promote service others candidate alias expected w ≡ after_read answer
    unfolding promote resolve_alias
    promote-after_read = resolved_step answer

    promote_cases : (l : Lookup) → Points (after_read l) × LinksAtMost w.linked (after_read l)
    unfolding after_read
    promote_cases (found a) =
        let current = some (state_of service others candidate.registry_path alias a) in
        (from_Points expected current read, from_links expected current read)
    promote_cases not_found = (from_Points expected none read, from_links expected none read)
    promote_cases failed = (tt, inl refl)

    -- An alias that `promote` returns points at the candidate, by path, version and digest, as
    -- the service answered at the end.
    pub promote-points_at :
        {a : AliasState} {w' : World service others}
        → promote service others candidate alias expected w ≡ (ok a, w')
        → points_at a candidate ≡ true
    promote-points_at h = subst Points h (rw promote-after_read (promote_cases answer).0)

    -- However `promote` ends, it has made no link, or exactly one: of this alias, in the
    -- candidate's collection, to an artifact with the candidate's digest.
    pub promote-LinksAtMost :
        LinksAtMost w.linked (promote service others candidate alias expected w)
    promote-LinksAtMost = rw promote-after_read (promote_cases answer).1

    -- the alias as first read is where it was expected, and not at the candidate
    abbrev pub IsExpected : Lookup → Type 0
    IsExpected (found a) =
        (expected ≡ some (state_of service others candidate.registry_path alias a))
        × (points_at (state_of service others candidate.registry_path alias a) candidate ≡ false)
    IsExpected not_found = expected ≡ none
    IsExpected failed = ⊥

    guarded : (l : Lookup) → ((after_read l).1.linked ≡ w.linked) ⊎ IsExpected l
    unfolding after_read promote_from
    guarded (found a) =
        let current = state_of service others candidate.registry_path alias a in
        elim (Bool-cases (points_at current candidate)) [
          | inl at ↦ rw at (inl refl)
          | inr away ↦ elim (Bool-cases (same_alias? (some current) expected)) [
            | inl same ↦ inr (same_alias?-eq current expected same, away)
            | inr other ↦ rw (away, other) (inl refl)
          ]
        ]
    guarded not_found = elim (Bool-cases (same_alias? none expected)) [
      | inl same ↦ inr (none_same expected same)
      | inr other ↦ rw other (inl refl)
    ]
    guarded failed = inl refl

    -- Whatever other clients do and however it ends, a promotion links nothing unless the alias, as
    -- first read, was the state that was expected, field by field, and was not at the candidate; an
    -- alias that was not found must have been expected to be missing, and after a failed read
    -- nothing is linked.
    pub promote_compares_first :
        ((promote service others candidate alias expected w).1.linked ≡ w.linked)
        ⊎ IsExpected answer
    promote_compares_first = rw promote-after_read (guarded answer)
