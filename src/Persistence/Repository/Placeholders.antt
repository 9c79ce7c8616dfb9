-- ===== src/Persistence/Repository/Placeholders.antt =====
-- The placeholders of `update_feedback` (src/flight_delay/persistence/dynamodb.py) as they are sent.
use us_flight_delay_mlops.Prelude.{◌≡◌, refl, sym, some, String}
use us_flight_delay_mlops.Prelude.Int.{ℤ}
use us_flight_delay_mlops.Python.Float.{Float}
use us_flight_delay_mlops.Python.Result.{Result, ok, err, ◌>>=◌}
use us_flight_delay_mlops.Python.Result.Ensures.{ok-injective}
use us_flight_delay_mlops.Persistence.Codec.{
  Decimal, int, mapping, Attributes, attribute, end, get, CodecError, to_dynamodb, to_attributes,
}
use us_flight_delay_mlops.Persistence.Repository.{with_attribute, increment, feedback_values}

module _ (repr : Float → Decimal) (utc_text : ℤ → String) where
  -- the feedback with its revision, converted
  abbrev pub Converts : Attributes → ℤ → Attributes → Type 0
  Converts feedback expected converted =
      to_attributes repr utc_text
        (with_attribute "feedback_revision" (int (increment expected)) feedback)
      ≡ ok converted

  -- the expected revision and the new one are sent as they are, and the feedback with the new one
  pub feedback_values-converted :
      (feedback : Attributes) (expected : ℤ) {values : Attributes}
      → to_attributes repr utc_text (feedback_values feedback expected) ≡ ok values
      → (get ":expected" values ≡ some (int expected))
        × (get ":revision" values ≡ some (int (increment expected)))
        × ((converted : Attributes) × Converts feedback expected converted
            × (get ":feedback" values ≡ some (mapping converted)))
  unfolding to_dynamodb get ◌>>=◌
  feedback_values-converted feedback expected {values} h =
      from
        (to_attributes repr utc_text
          (with_attribute "feedback_revision" (int (increment expected)) feedback))
        refl h
    where
      from :
          (r : Result CodecError Attributes)
          → to_attributes repr utc_text
              (with_attribute "feedback_revision" (int (increment expected)) feedback)
            ≡ r
          → (((r >>= λ converted. ok (mapping converted)) >>= λ payload.
                  ok (attribute ":feedback" payload end))
                >>= λ rest. ok (attribute ":revision" (int (increment expected)) rest))
              >>= (λ rest. ok (attribute ":expected" (int expected) rest))
            ≡ ok values
          → (get ":expected" values ≡ some (int expected))
            × (get ":revision" values ≡ some (int (increment expected)))
            × ((converted : Attributes) × Converts feedback expected converted
                × (get ":feedback" values ≡ some (mapping converted)))
      from (ok converted) is h = rw (ok-injective (sym h)) (refl, refl, (converted, is, refl))
      from (err e) is h = cc
