-- ===== src/Prelude/Names.antt =====
-- Collections of texts: membership, `set`, `sorted`.
use Prim.Native.Nat.{Ordering}
use Prim.Native.String.{String}
use mathlib.Core.Path.{◌≡◌, refl, ap₂}
use mathlib.Core.Bool.{Bool, false, ◌&&◌, ◌||◌}
use mathlib.Core.List.{List, [], ◌∷◌}
use text.Mathlib.TextEquality.{Char-path}
use us_flight_delay_mlops.Prelude.Tests.{◌=ₛ◌, if◌then◌else◌, Bool-cases}
use us_flight_delay_mlops.Prelude.Compare.{
  IsPreorder, IsPreorder-on, compare_codes, IsPreorder-compare_codes, compare_codes-eq,
}
use us_flight_delay_mlops.Prelude.Sort.{sort_by, All-sort_by, IsSorted, sort_by-IsSorted}
use us_flight_delay_mlops.Prelude.Lists.{All, all}
use mathlib.Core.Logic.{inl, inr}
use us_flight_delay_mlops.Prelude.Text.{codes}

-- `name in names`
unfoldable pub member : String → List String → Bool
member s [] = false
member s (t ∷ ts) = t =ₛ s || member s ts

-- `set(names) == set(others)`
unfoldable pub same_names : List String → List String → Bool
same_names names others = all (λ n. member n others) names && all (λ n. member n names) others

-- `set(names)`, each name where it stands last
unfoldable pub distinct : List String → List String
unfolding member
distinct [] = []
distinct (s ∷ ts) = let rest = distinct ts in if member s ts then rest else s ∷ rest

unfoldable pub compare_text : String → String → Ordering
compare_text s t = compare_codes (codes s) (codes t)

-- `sorted(names)`
unfoldable pub sorted : List String → List String
unfolding compare_text
sorted l = sort_by compare_text l

codes-injective : (s t : String) → codes s ≡ codes t → s ≡ t
codes-injective String.[] String.[] h = refl
codes-injective String.[] (String.◌∷◌ d t) h = cc
codes-injective (String.◌∷◌ c s) String.[] h = cc
codes-injective (String.◌∷◌ c s) (String.◌∷◌ d t) h =
    ap₂ String.◌∷◌ (Char-path c d (cc)) (codes-injective s t (cc))

pub IsPreorder-compare_text : IsPreorder compare_text
unfolding compare_text
IsPreorder-compare_text = IsPreorder-on IsPreorder-compare_codes codes

-- Only equal texts tie.
pub compare_text-eq : (s t : String) → compare_text s t ≡ Ordering.eq → s ≡ t
unfolding compare_text
compare_text-eq s t h = codes-injective s t (compare_codes-eq (codes s) (codes t) h)

pub All-distinct {ℓ} : (P : String → Type ℓ) (l : List String) → All P l → All P (distinct l)
unfolding distinct
All-distinct P [] h = tt
All-distinct P (s ∷ ts) h = elim (Bool-cases (member s ts)) [
  | inl again ↦ rw again (All-distinct P ts h.1)
  | inr new ↦ rw new (h.0, All-distinct P ts h.1)
]

pub All-sorted_distinct {ℓ} :
    (P : String → Type ℓ) (l : List String) → All P l → All P (sorted (distinct l))
unfolding sorted
All-sorted_distinct P l h = All-sort_by compare_text P (distinct l) (All-distinct P l h)

-- `sorted(set(names))` is in order.
pub sorted-IsSorted : (l : List String) → IsSorted compare_text (sorted l)
unfolding sorted
sorted-IsSorted l = sort_by-IsSorted IsPreorder-compare_text l
