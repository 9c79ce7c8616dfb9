-- ===== src/Persistence/Examples.antt =====
-- The repository on a table in memory, and its theorems at these runs.
use us_flight_delay_mlops.Prelude.{ℕ, ◌≡◌, refl, true, ◌↔◌, Option, none, some, [], ◌∷◌, String}
use us_flight_delay_mlops.Prelude.Int.{ℤ, pos, negsuc}
use us_flight_delay_mlops.Python.Float.{Float, finite, isfinite}
use us_flight_delay_mlops.Python.Result.{Result, ok, err}
use us_flight_delay_mlops.Python.Result.Returns.{Returns}
use us_flight_delay_mlops.Persistence.Codec.{
  Decimal, null, str, int, decimal, float, datetime, moment, model, mapping, list, tuple, nil, cons,
  Attributes, attribute, end, get, whole, to_dynamodb, number, from_dynamodb,
}
use us_flight_delay_mlops.Persistence.Codec.RoundTrip.{Reads, from_dynamodb-to_dynamodb}
use us_flight_delay_mlops.Persistence.Codec.Storable.{IsStorable, to_dynamodb_iff}
use us_flight_delay_mlops.Persistence.Repository.{
  World, ◌>>=◌, put_prediction, get_prediction, revise, write_feedback, update_feedback,
  with_attribute, int_of, revision_of,
}
use us_flight_delay_mlops.Persistence.Repository.Creation.{Creates, put_prediction-Creates}
use us_flight_delay_mlops.Persistence.Repository.Feedback.{
  stored_revision, IsUpdate, update_feedback-IsUpdate,
}
use us_flight_delay_mlops.Persistence.Repository.History.{
  History, created, accepted, here, countdown, accepted_revisions,
}
use us_flight_delay_mlops.Persistence.MemoryTable.{table, contents, update}
use us_flight_delay_mlops.Persistence.MemoryTable.Laws.{reads, updates, puts}

abbrev repr : Float → Decimal
repr (finite m) = record { coefficient = m; exponent = negsuc 0 }
repr x = record { coefficient = pos 0; exponent = pos 0 }

abbrev nearest : Decimal → Float
nearest d = finite d.coefficient

abbrev utc_text : ℤ → String
utc_text t = "2024-01-01T00:00:00Z"

abbrev int_of_text : String → Option ℤ
int_of_text s = none

abbrev nobody : ℕ → Option Attributes → Option Attributes
nobody n s = s

exact : (x : Float) → isfinite x ≡ true → nearest (repr x) ≡ x
exact (finite m) h = refl
exact Float.inf h = cc
exact Float.neg_inf h = cc
exact Float.nan h = cc

-- a prediction with a probability, a whole number, a moment and a nested list
abbrev event : Attributes
event = attribute "pk" (str "PREDICTION#p1") (
    attribute "probability" (float (finite (pos 25))) (
      attribute "count" (float (finite (pos 20))) (
        attribute "created_at" (datetime (moment (pos 7)))
          (attribute "history" (tuple (cons (int (pos 1)) (cons null nil))) end))))

abbrev converted : Attributes
converted = attribute "pk" (str "PREDICTION#p1") (
    attribute "probability" (decimal (record { coefficient = pos 25; exponent = negsuc 0 })) (
      attribute "count" (decimal (record { coefficient = pos 20; exponent = negsuc 0 })) (
        attribute "created_at" (str "2024-01-01T00:00:00Z")
          (attribute "history" (list (cons (int (pos 1)) (cons null nil))) end))))

converts : to_dynamodb repr utc_text (model event) ≡ ok (mapping converted)
unfolding to_dynamodb us_flight_delay_mlops.Python.Result.◌>>=◌
converts = refl

from_dynamodb-to_dynamodb_example :
    Reads repr utc_text nearest (model event) (from_dynamodb nearest (mapping converted))
from_dynamodb-to_dynamodb_example =
    from_dynamodb-to_dynamodb repr utc_text nearest exact (model event) converts

-- the count comes back as the int 2
count_read : number nearest (record { coefficient = pos 20; exponent = negsuc 0 }) ≡ int (pos 2)
unfolding number whole
count_read = refl

to_dynamodb_iff_example :
    IsStorable (model event) ↔ Returns (to_dynamodb repr utc_text (model event))
to_dynamodb_iff_example = to_dynamodb_iff repr utc_text (model event)

abbrev empty_table : World table nobody
empty_table = record { state = none; calls = 0 }

put_prediction-Creates_example :
    Creates table nobody contents repr utc_text nearest int_of_text puts event empty_table
      (put_prediction table nobody repr utc_text nearest int_of_text event empty_table)
put_prediction-Creates_example =
    put_prediction-Creates table nobody contents repr utc_text nearest int_of_text puts event
      empty_table

abbrev stored : Attributes
stored = attribute "pk" (str "PREDICTION#p1") (attribute "delayed" (str "no") end)

abbrev with_stored : World table nobody
with_stored = record { state = some stored; calls = 0 }

abbrev feedback : Attributes
feedback = attribute "rating" (str "good") end

abbrev revised : Attributes
revised = attribute "pk" (str "PREDICTION#p1") (
    attribute "delayed" (str "no") (
      attribute "feedback"
        (mapping
          (attribute "rating" (str "good") (attribute "feedback_revision" (int (pos 1)) end)))
        (attribute "feedback_revision" (decimal (record { coefficient = pos 1; exponent = pos 0 }))
          end)))

abbrev updated : Attributes
updated = attribute "pk" (str "PREDICTION#p1") (
    attribute "delayed" (str "no") (
      attribute "feedback"
        (mapping
          (attribute "rating" (str "good") (attribute "feedback_revision" (int (pos 1)) end)))
        (attribute "feedback_revision" (int (pos 1)) end)))

abbrev after_update : World table nobody
after_update = record { state = some revised; calls = 2 }

update_runs :
    update_feedback table nobody repr utc_text nearest int_of_text "p1" feedback with_stored
    ≡ (ok (some updated), after_update)
unfolding update_feedback revise get_prediction write_feedback ◌>>=◌
    us_flight_delay_mlops.Python.Result.◌>>=◌ to_dynamodb from_dynamodb number whole get
    with_attribute int_of revision_of update
update_runs = refl

update_feedback-IsUpdate_example :
    IsUpdate table nobody contents repr utc_text nearest int_of_text "p1" reads updates feedback
      with_stored updated
      (some revised)
update_feedback-IsUpdate_example =
    update_feedback-IsUpdate table nobody contents repr utc_text nearest int_of_text "p1" reads
      updates feedback with_stored update_runs

stored_without : stored_revision table contents "p1" (some stored) ≡ none
unfolding get
stored_without = refl

one_update :
    History table contents repr utc_text nearest int_of_text "p1" reads updates
      (some revised ∷ some stored ∷ [])
      (pos 1 ∷ [])
unfolding get
one_update =
    accepted nobody with_stored after_update feedback updated (created stored_without) here refl
      update_runs refl

accepted_revisions_example : pos 1 ∷ [] ≡ countdown 1
accepted_revisions_example =
    accepted_revisions table contents repr utc_text nearest int_of_text "p1" reads updates
      one_update
