-- ===== src/Persistence/Repository/Creation.antt =====
-- What `put_prediction` and `put_error` (src/flight_delay/persistence/dynamodb.py) do to the table,
-- however they end.
use us_flight_delay_mlops.Prelude.{ℕ, ◌≡◌, refl, Option, none, String, ◌⊎◌, inl, inr}
use us_flight_delay_mlops.Prelude.Int.{ℤ}
use us_flight_delay_mlops.Python.Float.{Float}
use us_flight_delay_mlops.Python.Result.{Result, ok, err}
use us_flight_delay_mlops.Persistence.Codec.{Decimal, Attributes, CodecError, to_attributes}
use us_flight_delay_mlops.Persistence.Table.{
  Reply, done, refused, rejected, interrupted, Table, Contents, Same, IsPut, PutMeans, attribute_of,
}
use us_flight_delay_mlops.Persistence.Repository.{
  Failure, conflict, failed, codec, transport_error, absent, World, met, after_call, ◌>>=◌,
  answered, codec_result, lift, call_put, put_prediction,
}

module _ (table : Table) (others : ℕ → table.State → table.State) (contents : Contents table)
    (repr : Float → Decimal) (utc_text : ℤ → String) (nearest : Decimal → Float)
    (int_of_text : String → Option ℤ)
    (puts : (item : Attributes) (s : table.State)
      → PutMeans table contents item absent s (table.put_item s item absent)) where
  open contents use {item_at}

  -- the item was put, converted, where no item with a key was
  abbrev pub IsCreated : Attributes → World table others → World table others → Type 0
  IsCreated item w w' =
      (converted : Attributes) × (to_attributes repr utc_text item ≡ ok converted)
      × (put : IsPut table contents converted absent (met table others w) w'.state) × (attribute_of
            "pk" (item_at (met table others w) put.key)
          ≡ none)

  -- the item was converted and sent, and the table gave this reply
  abbrev pub Replied : Attributes → World table others → Reply (Unit {0}) → Type 0
  Replied item w reply =
      (converted : Attributes) × (to_attributes repr utc_text item ≡ ok converted)
      × ((table.put_item (met table others w) converted absent).0 ≡ reply)

  -- what each ending of the write means
  abbrev pub Creates :
      Attributes → World table others → Result Failure (Unit {0}) × World table others → Type 0
  Creates item w (ok _, w') = IsCreated item w w'
  Creates item w (err conflict, w') =
      Replied item w refused × Same table contents (met table others w) w'.state
  Creates item w (err failed, w') =
      Replied item w rejected × Same table contents (met table others w) w'.state
  Creates item w (err transport_error, w') =
      Replied item w interrupted
      × (Same table contents (met table others w) w'.state ⊎ IsCreated item w w')
  Creates item w (err (codec e), w') = (to_attributes repr utc_text item ≡ err e) × (w' ≡ w)
  Creates item w (err _, w') = ⊥

  answers :
      (item converted : Attributes) (w : World table others)
      → to_attributes repr utc_text item ≡ ok converted
      → (ending : Reply (Unit {0}) × table.State)
      → (table.put_item (met table others w) converted absent).0 ≡ ending.0
      → PutMeans table contents converted absent (met table others w) ending
      → Creates item w (answered table others ending.0, after_call table others w ending.1)
  answers item converted w e (done u, s) is h = (converted, e, h, h.held)
  answers item converted w e (refused, s) is h = ((converted, e, is), h)
  answers item converted w e (rejected, s) is h = ((converted, e, is), h)
  answers item converted w e (interrupted, s) is (inl same) = ((converted, e, is), inl same)
  answers item converted w e (interrupted, s) is (inr put) =
      ((converted, e, is), inr (converted, e, put, put.held))

  module _ (item : Attributes) (w : World table others) where
    converts :
        (r : Result CodecError Attributes)
        → to_attributes repr utc_text item ≡ r
        → Creates item w (
            ◌>>=◌ table others
              (lift table others (codec_result r))
              (λ converted.
                ◌>>=◌ table others
                  (call_put table others converted absent)
                  (λ reply. lift table others (answered table others reply)))
              w)
    unfolding ◌>>=◌
    converts (err e) h = (h, refl)
    converts (ok converted) h =
        answers item converted w h (table.put_item (met table others w) converted absent) refl
          (puts converted (met table others w))

    -- What each ending of the write of a prediction means: success means that the converted item
    -- was put where no item with a key was; a conflict, that the table refused the condition and
    -- nothing is changed; a failure, that it rejected the call and nothing is changed; after an
    -- exception of the transport one of the two holds; and an item that cannot be converted is not
    -- sent. The table carries out a conditional put as documented.
    pub put_prediction-Creates :
        Creates item w (put_prediction table others repr utc_text nearest int_of_text item w)
    unfolding put_prediction
    put_prediction-Creates = converts (to_attributes repr utc_text item) refl
