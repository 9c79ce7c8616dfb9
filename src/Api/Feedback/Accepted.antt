-- ===== src/Api/Feedback/Accepted.antt =====
-- What an accepted feedback (services/api/app/main.py, `submit_feedback`) has done to the DynamoDB
-- repository (src/flight_delay/persistence/dynamodb.py).
use mathlib.Core.Path.{subst}
use us_flight_delay_mlops.Api.Reading.Public.{get-with_other, get-with_same}
use us_flight_delay_mlops.Api.Feedback.Agreement.{IsSame, agrees_iff}
use us_flight_delay_mlops.Python.Result.Ensures.{ok-injective}
use us_flight_delay_mlops.Prelude.{
  ℕ, ◌≡◌, ◌↔◌, refl, sym, ap, ◌∙◌, ◌=ₛ◌, true, false, Bool, Option, none, some, String,
}
use us_flight_delay_mlops.Prelude.Int.{ℤ}
use us_flight_delay_mlops.Python.Float.{Float}
use us_flight_delay_mlops.Python.Result.{Result, ok, err}
use us_flight_delay_mlops.Persistence.Codec.{
  Decimal, Datum, Datetime, datetime, bool, Attributes, get, mapping, type_error,
}
use us_flight_delay_mlops.Persistence.Table.{Table, Contents, GetMeans, UpdateMeans}
use us_flight_delay_mlops.Persistence.Repository.{
  World, Failure, codec, with_attribute, prediction_key, feedback_changes, feedback_condition,
}
use us_flight_delay_mlops.Persistence.Repository.Feedback.{IsUpdate, update_feedback-IsUpdate}
use us_flight_delay_mlops.Api.Service.{
  HttpError, key_missing, unhandled, Repository, Cache, Runtime, App, ready, not_ready,
}
use us_flight_delay_mlops.Api.Stored.{dynamodb}
use us_flight_delay_mlops.Api.Feedback.{
  agrees, revised_feedback, updated, revise, retrieved, submit_feedback,
}

bool-injective : {a b : Bool} → some (bool a) ≡ some (bool b) → a ≡ b
bool-injective h = cc

module _ (Request : Type 0) (dump : Request → Datum) (cache_key : Request → String)
    (repository : Repository) (cache : Cache) (prediction_id : String) (actual_delayed : Bool)
    (feedback_at : Datetime) (feedback : Attributes) where
  abbrev State : Type 0
  State = App Request dump cache_key repository cache

  -- what is stored of the feedback, where the prediction was `predicted`
  abbrev pub payload : Datum → Attributes
  payload predicted = with_attribute "feedback_at" (datetime feedback_at) (
      with_attribute "feedback_correct"
        (bool (agrees Request dump cache_key repository cache actual_delayed predicted)) feedback)

  -- The prediction was read, its feedback written with the comparison to that prediction, and the
  -- body is the feedback as stored.
  pub record IsAccepted (store : repository.State) (body : Attributes) (store' : repository.State)
      : Type 0 where
    pub current : Attributes
    pub predicted : Datum
    pub after_read : repository.State
    pub after : Attributes
    pub is_read : repository.get_prediction prediction_id store ≡ (ok (some current), after_read)
    pub is_predicted : get "predicted_delayed" current ≡ some predicted
    pub is_written :
        repository.update_feedback prediction_id (payload predicted) after_read
        ≡ (ok (some after), store')
    pub is_body : revised_feedback Request dump cache_key repository cache after ≡ ok body

  abbrev Accepts : repository.State → Result HttpError Attributes × State → Type 0
  Accepts store (ok body, app') = IsAccepted store body app'.store
  Accepts store (err e, app') = Unit

  module _ (app : State) (current : Attributes) (s : repository.State)
      (is_read : repository.get_prediction prediction_id app.store ≡ (ok (some current), s)) where
    Accepts-body :
        (predicted : Datum)
        → get "predicted_delayed" current ≡ some predicted
        → (after : Attributes) (s' : repository.State)
        → repository.update_feedback prediction_id (payload predicted) s ≡ (ok (some after), s')
        → (r : Result HttpError Attributes)
        → revised_feedback Request dump cache_key repository cache after ≡ r
        → Accepts app.store (r, record app { store = s' })
    Accepts-body predicted is_predicted after s' is_written (ok body) is_body = record {
      current = current;
      predicted = predicted;
      after_read = s;
      after = after;
      is_read = is_read;
      is_predicted = is_predicted;
      is_written = is_written;
      is_body = is_body;
    }
    Accepts-body predicted is_predicted after s' is_written (err e) is_body = tt

    Accepts-update :
        (predicted : Datum)
        → get "predicted_delayed" current ≡ some predicted
        → (ending : Result Failure (Option Attributes) × repository.State)
        → repository.update_feedback prediction_id (payload predicted) s ≡ ending
        → Accepts app.store
            (updated Request dump cache_key repository cache (record app { store = s }) ending)
    Accepts-update predicted is_predicted (err e, s') h = tt
    Accepts-update predicted is_predicted (ok none, s') h = tt
    Accepts-update predicted is_predicted (ok (some after), s') h =
        Accepts-body predicted is_predicted after s' h _ refl

    Accepts-revise :
        (o : Option Datum)
        → get "predicted_delayed" current ≡ o
        → Accepts app.store (
            revise Request dump cache_key repository cache prediction_id actual_delayed feedback_at
              feedback o
              (record app { store = s }))
    unfolding revise
    Accepts-revise none h = tt
    Accepts-revise (some predicted) h = Accepts-update predicted h _ refl

  Accepts-read :
      (app : State) (ending : Result Failure (Option Attributes) × repository.State)
      → repository.get_prediction prediction_id app.store ≡ ending
      → Accepts app.store (
          retrieved Request dump cache_key repository cache prediction_id actual_delayed feedback_at
            feedback app ending)
  Accepts-read app (err e, s) h = tt
  Accepts-read app (ok none, s) h = tt
  Accepts-read app (ok (some current), s) h = Accepts-revise app current s h _ refl

  Accepts-ready :
      (app : State) (o : Option (Runtime Request dump cache_key))
      → Accepts app.store (elim o [
        | none ↦ (err not_ready, app)
        | some runtime ↦
            retrieved Request dump cache_key repository cache prediction_id actual_delayed
              feedback_at feedback app
              (repository.get_prediction prediction_id app.store)
      ])
  Accepts-ready app none = tt
  Accepts-ready app (some runtime) = Accepts-read app _ refl

  -- A feedback that is answered was compared with the prediction as read, written, and read back.
  submitted-Accepts :
      (app : State)
      → Accepts app.store (
          submit_feedback Request dump cache_key repository cache prediction_id actual_delayed
            feedback_at feedback app)
  unfolding submit_feedback
  submitted-Accepts app = Accepts-ready app (ready Request dump cache_key repository cache app)

  pub submit_feedback-IsAccepted :
      (app : State) {body : Attributes} {app' : State}
      → submit_feedback Request dump cache_key repository cache prediction_id actual_delayed
          feedback_at feedback app
        ≡ (ok body, app')
      → IsAccepted app.store body app'.store
  submit_feedback-IsAccepted app h = subst (Accepts app.store) h (submitted-Accepts app)

-- the body is the feedback of the item, with a revision
pub record IsBody (after body : Attributes) : Type 0 where
  pub returned : Attributes
  pub is_returned : get "feedback" after ≡ some (mapping returned)
  pub kept : (k : String) → "feedback_revision" =ₛ k ≡ false → get k body ≡ get k returned
  pub revision : Datum
  pub has_revision : get "feedback_revision" body ≡ some revision

module _ (Request : Type 0) (dump : Request → Datum) (cache_key : Request → String)
    (repository : Repository) (cache : Cache) where
  -- by what the revision was: `setdefault` of the one beside the feedback
  with_default :
      (after f body : Attributes) (beside inside : Option Datum)
      → get "feedback" after ≡ some (mapping f)
      → get "feedback_revision" f ≡ inside
      → ◌≡◌ {A = Result HttpError Attributes}
          (elim beside [
            | some revision ↦
                ok (elim inside [
                  | some _ ↦ f
                  | none ↦ with_attribute "feedback_revision" revision f
                ])
            | none ↦ err (key_missing "feedback_revision")
          ])
          (ok body)
      → IsBody after body
  with_default after f body none inside e i h = cc
  with_default after f body (some r) (some v) e i h = rw (sym (ok-injective h)) (record {
    returned = f;
    is_returned = e;
    kept = λ k free. refl;
    revision = v;
    has_revision = i;
  })
  with_default after f body (some r) none e i h = rw (sym (ok-injective h)) (record {
    returned = f;
    is_returned = e;
    kept = λ k free. get-with_other "feedback_revision" k r f free;
    revision = r;
    has_revision = get-with_same "feedback_revision" r f;
  })

  by_feedback :
      (after body : Attributes) (o : Option Datum)
      → get "feedback" after ≡ o
      → ◌≡◌ {A = Result HttpError Attributes}
          (elim o [
            | some (mapping feedback) ↦ elim (get "feedback_revision" after) [
              | some revision ↦ ok (elim (get "feedback_revision" feedback) [
                | some _ ↦ feedback
                | none ↦ with_attribute "feedback_revision" revision feedback
              ])
              | none ↦ err (key_missing "feedback_revision")
            ]
            | some _ ↦ err (unhandled (codec type_error))
            | none ↦ err (key_missing "feedback")
          ])
          (ok body)
      → IsBody after body
  by_feedback after body none e h = cc
  by_feedback after body (some (mapping f)) e h = with_default after f body _ _ e refl h
  by_feedback after body (some _) e h = cc

  pub revised_feedback-IsBody :
      (after body : Attributes)
      → revised_feedback Request dump cache_key repository cache after ≡ ok body
      → IsBody after body
  revised_feedback-IsBody after body h = by_feedback after body _ refl h

  -- the mark of a feedback that is sent
  pub marked :
      (prediction_id : String) (actual : Bool) (at : Datetime) (feedback : Attributes)
      (predicted : Datum)
      → (get "feedback_correct" (
            payload Request dump cache_key repository cache prediction_id actual at feedback
              predicted)
          ≡ some (bool true))
        ↔ IsSame actual predicted
  marked prediction_id actual at feedback predicted =
      let mark = agrees Request dump cache_key repository cache actual predicted in
      let is =
        get-with_other "feedback_at" "feedback_correct" (datetime at) _ refl
        ∙ get-with_same "feedback_correct" (bool mark) feedback in
      let same = agrees_iff Request dump cache_key repository cache actual predicted in
      (λ h. same.0 (bool-injective (sym is ∙ h)), λ s. is ∙ ap (λ b. some (bool b)) (same.1 s))

module _ (table : Table) (others : ℕ → table.State → table.State) (contents : Contents table)
    (repr : Float → Decimal) (utc_text : ℤ → String) (nearest : Decimal → Float)
    (int_of_text : String → Option ℤ) (prediction_id : String)
    (reads : (s : table.State)
      → GetMeans table contents
          (prediction_key prediction_id)
          s
          (table.get_item s (prediction_key prediction_id)))
    (updates : (values : Attributes) (s : table.State)
      → UpdateMeans table contents
          (prediction_key prediction_id)
          feedback_changes
          feedback_condition
          values
          s
          (table.update_item s
            (prediction_key prediction_id)
            feedback_changes
            feedback_condition
            values))
    (Request : Type 0) (dump : Request → Datum) (cache_key : Request → String) (cache : Cache)
    (actual_delayed : Bool) (feedback_at : Datetime) (feedback : Attributes) where
  abbrev store_of : Repository
  store_of = dynamodb table others contents repr utc_text nearest int_of_text

  -- accepted, by an update that lost nothing
  pub record IsKept (w : World table others) (body : Attributes) (w' : World table others)
      : Type 0 where
    pub acceptance :
        IsAccepted Request dump cache_key store_of cache prediction_id actual_delayed feedback_at
          feedback w body w'
    pub mark :
        (get "feedback_correct" (
            payload Request dump cache_key store_of cache prediction_id actual_delayed feedback_at
              feedback acceptance.predicted)
          ≡ some (bool true))
        ↔ IsSame actual_delayed acceptance.predicted
    pub answer : IsBody acceptance.after body
    pub update :
        IsUpdate table others contents repr utc_text nearest int_of_text prediction_id reads updates
          (payload Request dump cache_key store_of cache prediction_id actual_delayed feedback_at
            feedback acceptance.predicted)
          acceptance.after_read
          acceptance.after
          w'.state

  -- A feedback that the API answers was read against the stored prediction and marked correct
  -- exactly where it is the predicted value, as a Boolean or as the number that equals it; it was
  -- stored, converted, with its mark, its time and the next revision inside, over the revision that
  -- the update had read, or over none; and the body is that feedback as the table returned it, with
  -- a revision. The table reads and updates as documented, whatever other clients do before each
  -- call.
  pub submit_feedback-IsKept :
      (app : App Request dump cache_key store_of cache) {body : Attributes}
      {app' : App Request dump cache_key store_of cache}
      → submit_feedback Request dump cache_key store_of cache prediction_id actual_delayed
          feedback_at feedback app
        ≡ (ok body, app')
      → IsKept app.store body app'.store
  submit_feedback-IsKept app h =
      let accepted =
        submit_feedback-IsAccepted Request dump cache_key store_of cache prediction_id
          actual_delayed feedback_at feedback app h in
      record {
        acceptance = accepted;
        mark =
            marked Request dump cache_key store_of cache prediction_id actual_delayed feedback_at
              feedback accepted.predicted;
        answer =
            revised_feedback-IsBody Request dump cache_key store_of cache accepted.after _
              accepted.is_body;
        update =
            update_feedback-IsUpdate table others contents repr utc_text nearest int_of_text
              prediction_id reads updates _ accepted.after_read accepted.is_written;
      }
