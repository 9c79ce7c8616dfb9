-- ===== src/Api/Reading/Public.antt =====
-- What the handler that reads a prediction (services/api/app/main.py, `_public_record`) hands on.
use us_flight_delay_mlops.Prelude.{
  ◌≡◌, refl, sym, ◌∙◌, false, Bool-cases, Option, none, some, Option-cases, String, inl, inr,
  eq_iff, ◌=ₛ◌, ◌⊎◌,
}
use us_flight_delay_mlops.Prelude.Int.{pos}
use us_flight_delay_mlops.Python.Result.{Result, ok, err}
use us_flight_delay_mlops.Python.Result.Ensures.{ok-injective}
use us_flight_delay_mlops.Persistence.Codec.{
  Datum, null, int, mapping, Attributes, attribute, end, get,
}
use us_flight_delay_mlops.Persistence.Repository.{with_attribute}
use us_flight_delay_mlops.Api.Service.{HttpError}
use us_flight_delay_mlops.Api.Reading.{
  without, revision_or_one, with_revision, popped, public_record,
}

get-without : (k : String) (fields : Attributes) → get k (without k fields) ≡ none
unfolding get without
get-without k end = refl
get-without k (attribute j v rest) = elim (Bool-cases (j =ₛ k)) [
  | inl same ↦ rw same (get-without k rest)
  | inr other ↦ rw other (rw other (get-without k rest))
]

get-without_other :
    (k j : String) (fields : Attributes) → k =ₛ j ≡ false → get j (without k fields) ≡ get j fields
unfolding get without
get-without_other k j end h = refl
get-without_other k j (attribute i v rest) h = elim (Bool-cases (i =ₛ k)) [
  | inl same ↦ rw same (rw ((eq_iff i k).0 same) (rw h (get-without_other k j rest h)))
  | inr other ↦ rw other (rw (get-without_other k j rest h) refl)
]

pub get-with_other :
    (k j : String) (v : Datum) (fields : Attributes)
    → k =ₛ j ≡ false
    → get j (with_attribute k v fields) ≡ get j fields
unfolding get with_attribute
get-with_other k j v end h = rw h refl
get-with_other k j v (attribute i u fields) h = elim (Bool-cases (i =ₛ k)) [
  | inl same ↦ rw same (rw ((eq_iff i k).0 same) (rw h refl))
  | inr other ↦ rw other (rw (get-with_other k j v fields h) refl)
]

pub get-with_same :
    (k : String) (v : Datum) (fields : Attributes) → get k (with_attribute k v fields) ≡ some v
unfolding get with_attribute
get-with_same k v end = rw ((eq_iff k k).1 refl) refl
get-with_same k v (attribute j u fields) = elim (Bool-cases (j =ₛ k)) [
  | inl same ↦ rw same (rw same refl)
  | inr other ↦ rw other (rw other (get-with_same k v fields))
]

-- the revision of a feedback: its own, else the one stored beside it, else 1
abbrev pub IsRevisionOf : Attributes → Attributes → Datum → Type 0
IsRevisionOf item feedback v =
    (get "feedback_revision" feedback ≡ some v)
    ⊎ ((get "feedback_revision" feedback ≡ none)
        × ((get "feedback_revision" item ≡ some v)
            ⊎ ((get "feedback_revision" item ≡ none) × (v ≡ int (pos 1)))))

-- a feedback that is a mapping is made public with its revision
abbrev pub ShowsRevision : Attributes → Option Datum → Option Datum → Type 0
ShowsRevision item (some (mapping feedback)) after =
    (shown : Attributes) × (v : Datum) × (after ≡ some (mapping shown))
    × (get "feedback_revision" shown ≡ some v)
    × IsRevisionOf item feedback v
ShowsRevision item _ after = Unit

-- what the repair of the feedback keeps and gives
record IsRepaired (before after : Attributes) : Type 0 where
  kept : (k : String) → "feedback" =ₛ k ≡ false → get k after ≡ get k before
  revision : ShowsRevision before (get "feedback" before) (get "feedback" after)

IsRepaired-same :
    (payload : Attributes) (o : Option Datum)
    → get "feedback" payload ≡ o
    → ShowsRevision payload o o
    → IsRepaired payload payload
IsRepaired-same payload o h shows = record { kept = λ k free. refl; revision = rw h shows }

given :
    (payload feedback : Attributes) (o : Option Datum)
    → get "feedback_revision" payload ≡ o
    → get "feedback_revision" feedback ≡ none
    → IsRevisionOf payload feedback (elim o [ none ↦ int (pos 1) | some v ↦ v ])
given payload feedback none alone missing = inr (missing, inr (alone, refl))
given payload feedback (some v) found missing = inr (missing, inl found)

repaired :
    (payload : Attributes) {after : Attributes} (o : Option Datum)
    → get "feedback" payload ≡ o
    → with_revision payload o ≡ ok after
    → IsRepaired payload after
unfolding with_revision
repaired payload none h e = rw (ok-injective (sym e)) (IsRepaired-same payload none h tt)
repaired payload (some null) h e =
    rw (ok-injective (sym e)) (IsRepaired-same payload (some null) h tt)
repaired payload (some (mapping feedback)) h e =
    elim (Option-cases (get "feedback_revision" feedback)) [
      | inl missing ↦ rw (ok-injective (sym (rw (missing, with_revision) at e))) (record {
        kept = λ k free. get-with_other "feedback" k _ payload free;
        revision = rw h (
          _,
          revision_or_one payload,
          get-with_same "feedback" _ payload,
          get-with_same "feedback_revision" _ feedback,
          given payload feedback _ refl missing,
        );
      })
      | inr (v, found) ↦ rw (ok-injective (sym (rw (found, with_revision) at e))) (
          IsRepaired-same payload (some (mapping feedback)) h (feedback, v, refl, found, inl found))
    ]
repaired payload (some _) h e = cc

-- What the record that is validated has of the stored item.
pub record IsPublic (item payload : Attributes) : Type 0 where
  pub no_key : get "pk" payload ≡ none
  pub no_revision : get "feedback_revision" payload ≡ none
  pub kept :
      (k : String)
      → "pk" =ₛ k ≡ false
      → "feedback" =ₛ k ≡ false
      → "feedback_revision" =ₛ k ≡ false
      → get k payload ≡ get k item
  pub revision : ShowsRevision item (get "feedback" item) (get "feedback" payload)

-- without the key the feedback and its revision are the same
revision_of_item :
    (item after : Attributes) (o after_o : Option Datum)
    → ShowsRevision (without "pk" item) o after_o
    → ShowsRevision item o after_o
revision_of_item item after (some (mapping feedback)) after_o (shown, v, is, has, found) =
    let same = get-without_other "pk" "feedback_revision" item refl in
    (shown, v, is, has, rw same at found)
revision_of_item item after none after_o h = tt
revision_of_item item after (some _) after_o h = tt

popped-IsPublic :
    (item : Attributes) {payload : Attributes} (r : Result HttpError Attributes)
    → with_revision (without "pk" item) (get "feedback" (without "pk" item)) ≡ r
    → popped r ≡ ok payload
    → IsPublic item payload
popped-IsPublic item (ok after) is e =
    let facts = repaired (without "pk" item) _ refl is in
    rw (ok-injective (sym e)) (record {
      no_key =
          get-without_other "feedback_revision" "pk" after refl
          ∙ (facts.kept "pk" refl ∙ get-without "pk" item);
      no_revision = get-without "feedback_revision" after;
      kept = λ k not_key not_feedback not_revision.
          get-without_other "feedback_revision" k after not_revision
          ∙ (facts.kept k not_feedback ∙ get-without_other "pk" k item not_key);
      revision =
          rw
            (
              get-without_other "feedback_revision" "feedback" after refl,
              sym (get-without_other "pk" "feedback" item refl),
            )
            (revision_of_item item after _ _ facts.revision);
    })
popped-IsPublic item (err f) is e = cc

-- The record made public of a stored prediction has no key and no separate revision; a feedback
-- that is a mapping has inside it its own revision, else the one stored beside it, else 1; and
-- every other attribute is as stored.
pub public_record-IsPublic :
    (item : Attributes) {payload : Attributes}
    → public_record item ≡ ok payload
    → IsPublic item payload
unfolding public_record
public_record-IsPublic item h = popped-IsPublic item _ refl h
