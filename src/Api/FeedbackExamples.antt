-- ===== src/Api/FeedbackExamples.antt =====
-- Feedback on a stored prediction, and the theorem at this run.
use us_flight_delay_mlops.Prelude.{◌≡◌, refl, Bool, true, none, some}
use us_flight_delay_mlops.Prelude.Int.{pos}
use us_flight_delay_mlops.Python.Result.{Result, ok, err}
use us_flight_delay_mlops.Persistence.Codec.{
  str, bool, moment, Attributes, attribute, end, get, to_dynamodb, from_dynamodb, number, whole,
}
use us_flight_delay_mlops.Persistence.Repository
use us_flight_delay_mlops.Persistence.Repository.{
  ◌>>=◌, with_attribute, get_prediction, write_feedback, update_feedback, int_of, revision_of,
}
use us_flight_delay_mlops.Persistence.MemoryTable.{table, contents, update}
use us_flight_delay_mlops.Persistence.MemoryTable.Laws.{reads, updates}
use us_flight_delay_mlops.Api.Service.{HttpError, App}
use us_flight_delay_mlops.Api.Stored.{dynamodb}
use us_flight_delay_mlops.Api.Feedback.{submit_feedback, revise}
use us_flight_delay_mlops.Api.Feedback.Accepted.{IsKept, submit_feedback-IsKept}
use us_flight_delay_mlops.Api.Examples.{
  dump, cache_key, one_entry, repr, nearest, utc_text, int_of_text, nobody, runtime,
}

abbrev prediction : Attributes
prediction = attribute "pk" (str "PREDICTION#p1") (attribute "predicted_delayed" (bool true) end)

abbrev app :
    App Bool dump cache_key
      (dynamodb table nobody contents repr utc_text nearest int_of_text)
      one_entry
app = record {
  runtime = some runtime;
  connected = true;
  store = record { state = some prediction; calls = 0 };
  cached = none;
}

abbrev feedback : Attributes
feedback = attribute "source" (str "user") end

abbrev outcome :
    Result HttpError Attributes
    × App Bool dump cache_key
        (dynamodb table nobody contents repr utc_text nearest int_of_text)
        one_entry
outcome =
    submit_feedback Bool dump cache_key
      (dynamodb table nobody contents repr utc_text nearest int_of_text) one_entry "p1" true
      (moment (pos 3)) feedback app

abbrev body_in : Result HttpError Attributes → Attributes
body_in (ok body) = body
body_in (err e) = end

is_answered : outcome ≡ (ok (body_in outcome.0), outcome.1)
unfolding submit_feedback revise Repository.revise get_prediction write_feedback update_feedback
    ◌>>=◌ us_flight_delay_mlops.Python.Result.◌>>=◌ to_dynamodb from_dynamodb number whole get
    with_attribute int_of revision_of update
is_answered = refl

submit_feedback-IsKept_example :
    IsKept table nobody contents repr utc_text nearest int_of_text "p1" reads updates Bool dump
      cache_key one_entry true
      (moment (pos 3))
      feedback
      app.store
      (body_in outcome.0)
      outcome.1.store
submit_feedback-IsKept_example =
    submit_feedback-IsKept table nobody contents repr utc_text nearest int_of_text "p1" reads
      updates Bool dump cache_key one_entry true (moment (pos 3)) feedback app is_answered
