-- ===== src/Persistence/Repository/Feedback.antt =====
-- The optimistic revision of feedback in src/flight_delay/persistence/dynamodb.py: what
-- `update_feedback` has done where it returns, whatever other clients do between its two calls.
use mathlib.Core.Path.{subst}
use us_flight_delay_mlops.Prelude.{
  ℕ, ◌+◌, ◌≡◌, refl, sym, ◌∙◌, ap, false, Option, none, some, String, ◌⊎◌, inl, inr, ◌=ₛ◌, any,
}
use us_flight_delay_mlops.Prelude.Int.{ℤ}
use us_flight_delay_mlops.Python.Float.{Float}
use us_flight_delay_mlops.Python.Result.{Result, ok, err}
use us_flight_delay_mlops.Python.Result.Ensures.{ok-injective}
use us_flight_delay_mlops.Persistence.Codec.{
  Decimal, Datum, int, mapping, Attributes, attribute, end, get, CodecError, from_attributes,
}
use us_flight_delay_mlops.Persistence.Table.{
  Reply, done, refused, rejected, interrupted, Table, Contents, Updated, UpdateMeans, GetMeans,
  attribute_of, target,
}
use us_flight_delay_mlops.Persistence.Repository.Placeholders.{Converts, feedback_values-converted}
use us_flight_delay_mlops.Persistence.Repository.{
  Failure, World, met, after_call, ◌>>=◌, continue, codec_result, answered, retrieved, increment,
  prediction_key, feedback_changes, feedback_condition, revision_of, get_prediction, write_feedback,
  revise, update_feedback,
}

module _ (table : Table) (others : ℕ → table.State → table.State) where
  -- a block that returns has returned at its first step
  run-eq-ok :
      {A B : Type 0} (m : World table others → Result Failure A × World table others)
      (f : A → World table others → Result Failure B × World table others) (w : World table others)
      {b : B} {w' : World table others}
      → ◌>>=◌ table others m f w ≡ (ok b, w')
      → (a : A) × (w₁ : World table others) × (m w ≡ (ok a, w₁)) × (f a w₁ ≡ (ok b, w'))
  unfolding ◌>>=◌
  run-eq-ok {A} {B} m f w {b} {w'} h = from (m w) refl h
    where
      from :
          (ending : Result Failure A × World table others)
          → m w ≡ ending
          → continue table others f ending ≡ (ok b, w')
          → (a : A) × (w₁ : World table others) × (m w ≡ (ok a, w₁)) × (f a w₁ ≡ (ok b, w'))
      from (ok a, w₁) e h = (a, w₁, e, h)
      from (err x, w₁) e h = cc

module _ (table : Table) (contents : Contents table) (prediction_id : String) where
  -- the stored revision of the prediction
  abbrev pub stored_revision : table.State → Option Datum
  stored_revision s =
      attribute_of "feedback_revision" (contents.item_at s (prediction_key prediction_id))

  -- A revision that is written: where the write met the state `s`, the revision was the one
  -- expected, or there was none; it is one more now, and all else is as it was.
  pub record IsRevised (expected : ℤ) (s s' : table.State) : Type 0 where
    pub expected_then :
        (stored_revision s ≡ none) ⊎ (stored_revision s ≡ some (contents.wire (int expected)))
    pub one_more : stored_revision s' ≡ some (contents.wire (int (increment expected)))
    pub kept :
        (b : String)
        → any (λ c. target c =ₛ b) feedback_changes ≡ false
        → attribute_of b (contents.item_at s' (prediction_key prediction_id))
          ≡ attribute_of b (contents.item_at s (prediction_key prediction_id))
    pub elsewhere :
        (k : Datum)
        → (k ≡ prediction_key prediction_id) ⊎ (contents.item_at s' k ≡ contents.item_at s k)

module _ (table : Table) (contents : Contents table) (repr : Float → Decimal)
    (utc_text : ℤ → String) (prediction_id : String) where
  -- the feedback is stored, converted, with the revision after the expected one inside
  abbrev pub IsStored : Attributes → ℤ → table.State → Type 0
  IsStored feedback expected s =
      (converted : Attributes) × Converts repr utc_text feedback expected converted
      × (attribute_of "feedback" (contents.item_at s (prediction_key prediction_id))
          ≡ some (contents.wire (mapping converted)))

module _ (table : Table) (others : ℕ → table.State → table.State) (contents : Contents table)
    (repr : Float → Decimal) (utc_text : ℤ → String) (nearest : Decimal → Float)
    (int_of_text : String → Option ℤ) (prediction_id : String)
    (reads : (s : table.State)
      → GetMeans table contents
          (prediction_key prediction_id)
          s
          (table.get_item s (prediction_key prediction_id)))
    (updates : (values : Attributes) (s : table.State)
      → UpdateMeans table contents
          (prediction_key prediction_id)
          feedback_changes
          feedback_condition
          values
          s
          (table.update_item s
            (prediction_key prediction_id)
            feedback_changes
            feedback_condition
            values)) where
  open contents use {item_at, wire}

  abbrev key : Datum
  key = prediction_key prediction_id

  revised :
      (expected : ℤ) {values after : Attributes} {s s' : table.State}
      → get ":expected" values ≡ some (int expected)
      → get ":revision" values ≡ some (int (increment expected))
      → Updated table contents key feedback_changes feedback_condition values s s' after
      → IsRevised table contents prediction_id expected s s'
  revised expected {values} {after} {s} {s'} is_expected is_revision u = record {
    expected_then = then_is u.held.1;
    one_more = rw u.stored (rw is_revision at u.assigned.1.0);
    kept = λ b free. rw u.stored (u.kept b free);
    elsewhere = u.elsewhere;
  }
    where
      then_is :
          (stored_revision table contents prediction_id s ≡ none)
            ⊎ ((v : Datum) × (get ":expected" values ≡ some v)
                × (stored_revision table contents prediction_id s ≡ some (wire v)))
          → (stored_revision table contents prediction_id s ≡ none)
            ⊎ (stored_revision table contents prediction_id s ≡ some (wire (int expected)))
      then_is (inl missing) = inl missing
      then_is (inr (v, is, stored)) = inr cc

  -- the state in which the write meets the table: others act after the read
  abbrev pub at_write : World table others → table.State
  at_write w = others (w.calls + 1) (met table others w)

  -- what is done where the update returns an item
  abbrev pub IsUpdate : Attributes → World table others → Attributes → table.State → Type 0
  IsUpdate feedback w after s' =
      (current : Attributes) × (expected : ℤ) × (stored : Attributes) × (item_at
          (met table others w) key
        ≡ some current)
      × (revision_of int_of_text (from_attributes nearest current) ≡ ok expected)
      × (item_at s' key ≡ some stored)
      × (after ≡ from_attributes nearest stored)
      × IsRevised table contents prediction_id expected (at_write w) s'
      × IsStored table contents repr utc_text prediction_id feedback expected s'

  -- where the read finds an item
  retrieved-some :
      (reply : Reply (Option Attributes)) (s : table.State) {current : Attributes}
      → GetMeans table contents key s reply
      → retrieved table others (from_attributes nearest) reply ≡ ok (some current)
      → (item : Attributes) × (item_at s key ≡ some item) × (current ≡ from_attributes nearest item)
  retrieved-some (done none) s g h = cc
  retrieved-some (done (some end)) s g h = cc
  retrieved-some (done (some (attribute k v fields))) s g h = (attribute k v fields, sym g, cc)
  retrieved-some refused s g h = cc
  retrieved-some rejected s g h = cc
  retrieved-some interrupted s g h = cc

  get_prediction-some :
      (w : World table others) {current : Attributes} {w' : World table others}
      → get_prediction table others repr utc_text nearest int_of_text prediction_id w
        ≡ (ok (some current), w')
      → (w' ≡ after_call table others w (met table others w))
        × ((item : Attributes) × (item_at (met table others w) key ≡ some item)
            × (current ≡ from_attributes nearest item))
  unfolding get_prediction ◌>>=◌
  get_prediction-some w h =
      (cc, retrieved-some _ (met table others w) (reads (met table others w)) (ap (λ p. p.0) h))

  answered-done :
      {A : Type 0} (reply : Reply A) {a : A} → answered table others reply ≡ ok a → reply ≡ done a
  answered-done (done b) h = cc
  answered-done refused h = cc
  answered-done rejected h = cc
  answered-done interrupted h = cc

  sent :
      (expected : ℤ) (values converted : Attributes) {after : Attributes} (s : table.State)
      (ending : Reply Attributes × table.State)
      → get ":expected" values ≡ some (int expected)
      → get ":revision" values ≡ some (int (increment expected))
      → get ":feedback" values ≡ some (mapping converted)
      → UpdateMeans table contents key feedback_changes feedback_condition values s ending
      → answered table others ending.0 ≡ ok after
      → (item_at ending.1 key ≡ some after)
        × IsRevised table contents prediction_id expected s ending.1
        × (attribute_of "feedback" (item_at ending.1 key) ≡ some (wire (mapping converted)))
  sent expected values converted {after} s (done a, s') e r f u h = (
    rw u.stored (ap some (ok-injective h)),
    revised expected e r u,
    rw u.stored (rw f at u.assigned.0),
  )
  sent expected values converted s (refused, s') e r f u h = cc
  sent expected values converted s (rejected, s') e r f u h = cc
  sent expected values converted s (interrupted, s') e r f u h = cc

  -- the call of the write
  abbrev ending : Attributes → World table others → Reply Attributes × table.State
  ending values w =
      table.update_item (met table others w) key feedback_changes feedback_condition values

  codec_result-ok :
      {A : Type 0} (r : Result CodecError A) {a : A} → codec_result r ≡ ok a → r ≡ ok a
  codec_result-ok (ok b) h = cc
  codec_result-ok (err e) h = cc

  write_feedback-some :
      (feedback : Attributes) (expected : ℤ) (w : World table others) {after : Attributes}
      {w' : World table others}
      → write_feedback table others repr utc_text nearest int_of_text prediction_id feedback
          expected w
        ≡ (ok (some after), w')
      → (stored : Attributes) × (item_at w'.state key ≡ some stored)
        × (after ≡ from_attributes nearest stored)
        × IsRevised table contents prediction_id expected (met table others w) w'.state
        × IsStored table contents repr utc_text prediction_id feedback expected w'.state
  unfolding write_feedback
  write_feedback-some feedback expected w {after} {w'} h =
      let (values, w₁, converted, h₁) = run-eq-ok table others _ _ w h in
      let (reply, w₂, called, h₂) = run-eq-ok table others _ _ w₁ h₁ in
      let (attributes, w₃, replied, h₃) = run-eq-ok table others _ _ w₂ h₂ in
      let is_values =
        feedback_values-converted repr utc_text feedback expected
          (codec_result-ok _ (ap (λ p. p.0) converted)) in
      let is_reply : answered table others (ending values w₁).0 ≡ ok attributes =
        rw (ok-injective (ap (λ p. p.0) called)) (ap (λ p. p.0) replied) in
      let is_state : (ending values w₁).1 ≡ w'.state =
        ap (λ p. p.1.state) called ∙ ap (λ p. p.1.state) replied ∙ ap (λ p. p.1.state) h₃ in
      let (converted_feedback, conversion, is_feedback) = is_values.2 in
      let (stored, revised, written) =
        sent expected values converted_feedback (met table others w₁) (ending values w₁) is_values.0
          is_values.1 is_feedback (updates values (met table others w₁)) is_reply in
      let is_after = ok-injective (ap (λ p. p.0) h₃) in
      subst
        (λ u.
          (stored : Attributes) × (item_at w'.state key ≡ some stored)
          × (after ≡ from_attributes nearest stored)
          × IsRevised table contents prediction_id expected (met table others u) w'.state
          × IsStored table contents repr utc_text prediction_id feedback expected w'.state)
        (sym (ap (λ p. p.1) converted))
        (
          attributes,
          subst (λ s. item_at s key ≡ some attributes) is_state stored,
          cc,
          subst (IsRevised table contents prediction_id expected (met table others w₁)) is_state
              revised,
          (
            converted_feedback,
            conversion,
            subst
                (λ s.
                  attribute_of "feedback" (item_at s key)
                  ≡ some (wire (mapping converted_feedback)))
                is_state written,
          ),
        )

  -- A feedback update that returns an item wrote over the revision that it had read, or over none:
  -- it stored the feedback, converted, with the next revision inside and beside it, changed nothing
  -- else, and returns the item as stored. The table reads and updates as documented, whatever other
  -- clients do between the two calls.
  pub update_feedback-IsUpdate :
      (feedback : Attributes) (w : World table others) {after : Attributes}
      {w' : World table others}
      → update_feedback table others repr utc_text nearest int_of_text prediction_id feedback w
        ≡ (ok (some after), w')
      → IsUpdate feedback w after w'.state
  unfolding update_feedback revise
  update_feedback-IsUpdate feedback w {after} {w'} h =
      let (current, w₁, got, h₁) = run-eq-ok table others _ _ w h in from current got h₁
    where
      from :
          (current : Option Attributes) {w₁ : World table others}
          → get_prediction table others repr utc_text nearest int_of_text prediction_id w
            ≡ (ok current, w₁)
          → revise table others repr utc_text nearest int_of_text prediction_id feedback current w₁
            ≡ (ok (some after), w')
          → IsUpdate feedback w after w'.state
      from none got h = cc
      from (some current) {w₁} got h =
          let (is_world, (item, is_item, is_current)) = get_prediction-some w got in
          let (expected, w₂, read, h₂) = run-eq-ok table others _ _ w₁ h in
          let (stored, is_stored, is_after, revised, written) =
            write_feedback-some feedback expected w₂ h₂ in
          let is_met : met table others w₂ ≡ at_write w =
            ap (met table others) (sym (ap (λ p. p.1) read) ∙ is_world) in
          (
            item,
            expected,
            stored,
            is_item,
            subst (λ c. revision_of int_of_text c ≡ ok expected) is_current (ap (λ p. p.0) read),
            is_stored,
            is_after,
            subst (λ s. IsRevised table contents prediction_id expected s w'.state) is_met revised,
            written,
          )
