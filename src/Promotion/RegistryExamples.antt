-- ===== src/Promotion/RegistryExamples.antt =====
-- A small Registry, and the adapter and the promotion script run on it.
use us_flight_delay_mlops.Prelude.{
  ℕ, ◌≡◌, ◌⊎◌, refl, true, some, [], ◌∷◌, String, ◌=ₛ◌, ◌||◌, if◌then◌else◌,
}
use us_flight_delay_mlops.Prelude.Compare.{compare_codes}
use us_flight_delay_mlops.Python.Result.{ok}
use us_flight_delay_mlops.Promotion.Candidates.{immutable_identity}
use us_flight_delay_mlops.Promotion.Registry.{
  Artifact, confirmed, found, not_found, Service, AliasState, World, alias_identity, same_alias,
  same_alias?, points_at, promote, promote_from, move, resolve_alias,
}
use us_flight_delay_mlops.Promotion.Registry.Moves.{
  LinksAtMost, promote-points_at, promote-LinksAtMost, promote_compares_first, IsExpected,
}
use us_flight_delay_mlops.Promotion.Examples.{new_version}

abbrev pub artifact_of : String → Artifact
artifact_of v = record { version = v; digest = v; source_digest = v }

-- The state is where the one alias points; the two versions are always there.
abbrev pub service : Service
service = record {
  State = Artifact;
  artifact = λ s path name.
      if name =ₛ "production"
      then found s
      else if name =ₛ "v0" || name =ₛ "v1"
      then found (artifact_of name)
      else not_found;
  link = λ s a path alias. confirmed a;
}

abbrev pub nobody : ℕ → Artifact → Artifact
nobody n s = s

abbrev pub start : World service nobody
start = record { state = artifact_of "v0"; calls = 0; linked = [] }

abbrev pub alias_at : String → AliasState
alias_at v = record {
  registry_path = "models/delay";
  alias = "production";
  version = v;
  digest = v;
  source_digest = v;
}

abbrev moved : World service nobody
moved = record {
  state = artifact_of "v1";
  calls = 4;
  linked = ("models/delay", "production", "v1") ∷ [];
}

promote_runs :
    promote service nobody new_version "production" (some (alias_at "v0")) start
    ≡ (ok (alias_at "v1"), moved)
unfolding promote promote_from move resolve_alias points_at alias_identity same_alias? same_alias
    immutable_identity compare_codes
promote_runs = refl

promote-points_at_example : points_at (alias_at "v1") new_version ≡ true
promote-points_at_example =
    promote-points_at service nobody new_version "production" (some (alias_at "v0")) start
      promote_runs

promote-LinksAtMost_example :
    LinksAtMost service nobody new_version "production" []
      (promote service nobody new_version "production" (some (alias_at "v0")) start)
promote-LinksAtMost_example =
    promote-LinksAtMost service nobody new_version "production" (some (alias_at "v0")) start

promote_compares_first_example :
    ((promote service nobody new_version "production" (some (alias_at "v0")) start).1.linked ≡ [])
    ⊎ IsExpected service nobody new_version "production"
        (some (alias_at "v0"))
        start
        (found (artifact_of "v0"))
promote_compares_first_example =
    promote_compares_first service nobody new_version "production" (some (alias_at "v0")) start
