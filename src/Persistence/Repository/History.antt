-- ===== src/Persistence/Repository/History.antt =====
-- The revisions that the accepted feedback of one prediction gets, in any interleaving of the reads
-- and writes of `update_feedback` (src/flight_delay/persistence/dynamodb.py).
use mathlib.Core.Path.{subst}
use us_flight_delay_mlops.Prelude.{
  ◌+◌, ℕ, zero, suc, ◌≤◌, ◌≡◌, refl, sym, ◌∙◌, ap, Option, none, some, List, [], ◌∷◌, String,
  length, All, ◌⊎◌, inl, inr, arith,
}
use us_flight_delay_mlops.Prelude.Int.{ℤ, pos}
use us_flight_delay_mlops.Python.Result.{ok}
use us_flight_delay_mlops.Python.Result.Ensures.{ok-injective}
use us_flight_delay_mlops.Persistence.Codec.{
  Decimal, int, Attributes, attribute, end, get, number, from_dynamodb, from_attributes,
}
use us_flight_delay_mlops.Python.Float.{Float}
use us_flight_delay_mlops.Persistence.Table.{Table, Contents, GetMeans, UpdateMeans}
use us_flight_delay_mlops.Persistence.Repository.{
  increment, prediction_key, int_of, revision_of, World, met, update_feedback, feedback_changes,
  feedback_condition,
}
use us_flight_delay_mlops.Persistence.Repository.Feedback.{
  stored_revision, IsRevised, update_feedback-IsUpdate,
}

-- n, n - 1, ..., 1
unfoldable pub countdown : ℕ → List ℤ
countdown zero = []
countdown (suc n) = pos (suc n) ∷ countdown n

cons_both : {a b : ℤ} {xs ys : List ℤ} → a ≡ b → xs ≡ ys → a ∷ xs ≡ b ∷ ys
cons_both h k = cc

length-countdown : (n : ℕ) → length (countdown n) ≡ n
unfolding countdown
length-countdown zero = refl
length-countdown (suc n) = rw (length-countdown n) refl

int-injective : {a b : ℤ} → some (int a) ≡ some (int b) → a ≡ b
int-injective h = cc

module _ (table : Table) (contents : Contents table) (repr : Float → Decimal)
    (utc_text : ℤ → String) (nearest : Decimal → Float) (int_of_text : String → Option ℤ)
    (prediction_id : String)
    (reads : (s : table.State)
      → GetMeans table contents
          (prediction_key prediction_id)
          s
          (table.get_item s (prediction_key prediction_id)))
    (updates : (values : Attributes) (s : table.State)
      → UpdateMeans table contents
          (prediction_key prediction_id)
          feedback_changes
          feedback_condition
          values
          s
          (table.update_item s
            (prediction_key prediction_id)
            feedback_changes
            feedback_condition
            values)) where
  open contents use {item_at, wire}

  -- `t` is one of the states
  pub data Among (t : table.State) : List table.State → Type 0 where
    here : {ss : List table.State} → Among t (t ∷ ss)
    later : {s : table.State} {ss : List table.State} → Among t ss → Among t (s ∷ ss)

  -- what `update_feedback` reads of the state `t`: a revision, 0 where there is none
  abbrev pub IsRead : table.State → ℤ → Type 0
  IsRead t expected =
      (current : Attributes) × (item_at t (prediction_key prediction_id) ≡ some current)
      × (revision_of int_of_text (from_attributes nearest current) ≡ ok expected)

  -- The states that the table goes through, the last one first, and the revisions in the items that
  -- the accepted calls of `update_feedback` returned. Such a call read any of the states, and its
  -- write met the last one; every other step leaves the revision of this prediction alone.
  pub data History : List table.State → List ℤ → Type 0 where
    created :
        {s : table.State}
        → stored_revision table contents prediction_id s ≡ none
        → History (s ∷ []) []
    accepted :
        {s : table.State} {ss : List table.State} {log : List ℤ} {revision : ℤ}
        (others : ℕ → table.State → table.State) (w w' : World table others)
        (feedback after : Attributes)
        → History (s ∷ ss) log
        → Among (met table others w) (s ∷ ss)
        → others (w.calls + 1) (met table others w) ≡ s
        → update_feedback table others repr utc_text nearest int_of_text prediction_id feedback w
          ≡ (ok (some after), w')
        → get "feedback_revision" after ≡ some (int revision)
        → History (w'.state ∷ s ∷ ss) (revision ∷ log)
    unrelated :
        {s s' : table.State} {ss : List table.State} {log : List ℤ}
        → History (s ∷ ss) log
        → stored_revision table contents prediction_id s'
          ≡ stored_revision table contents prediction_id s
        → History (s' ∷ s ∷ ss) log

  -- the state has the revision `n`, where none counts as 0
  abbrev Has : table.State → ℕ → Type 0
  Has t n =
      ((n ≡ 0) × (stored_revision table contents prediction_id t ≡ none))
      ⊎ (stored_revision table contents prediction_id t ≡ some (wire (int (pos n))))

  wire-injective : (a b : ℤ) → wire (int a) ≡ wire (int b) → a ≡ b
  wire-injective a b h =
      let (d, is_d, whole_d) = contents.wire_int a in
      let (e, is_e, whole_e) = contents.wire_int b in cc

  get-from_attributes :
      (k : String) (fields : Attributes)
      → get k (from_attributes nearest fields)
        ≡ elim (get k fields) [ none ↦ none | some v ↦ some (from_dynamodb nearest v) ]
  unfolding get from_dynamodb
  get-from_attributes k end = refl
  get-from_attributes k (attribute j v fields) = ground (arith, get-from_attributes k fields)

  from_wire : (m : ℤ) → from_dynamodb nearest (wire (int m)) ≡ int m
  unfolding from_dynamodb number
  from_wire m = let (d, is, whole_d) = contents.wire_int m in rw is (rw (whole_d, number) refl)

  revision_of-none :
      (current : Attributes)
      → get "feedback_revision" current ≡ none
      → revision_of int_of_text (from_attributes nearest current) ≡ ok (pos 0)
  unfolding revision_of
  revision_of-none current h =
      rw (get-from_attributes "feedback_revision" current, revision_of) (rw h refl)

  revision_of-some :
      (current : Attributes) (m : ℤ)
      → get "feedback_revision" current ≡ some (wire (int m))
      → revision_of int_of_text (from_attributes nearest current) ≡ ok m
  unfolding revision_of int_of
  revision_of-some current m h =
      rw (get-from_attributes "feedback_revision" current, revision_of)
        (rw h (rw (from_wire m) refl))

  read-Has :
      {t : table.State} {n : ℕ} {expected : ℤ} → Has t n → IsRead t expected → expected ≡ pos n
  read-Has (inl (zero_n, missing)) (current, is, read) =
      ok-injective (sym read ∙ revision_of-none current (rw is at missing)) ∙ ap pos (sym zero_n)
  read-Has {n} (inr found) (current, is, read) =
      ok-injective (sym read ∙ revision_of-some current (pos n) (rw is at found))

  revised-Has :
      {s s' : table.State} {n m : ℕ} {expected : ℤ}
      → Has s n
      → expected ≡ pos m
      → m ≤ n
      → IsRevised table contents prediction_id expected s s'
      → (increment expected ≡ pos (suc n)) × Has s' (suc n)
  revised-Has {s} {s'} {n} {m} {expected} has is_read le revised =
      let same : expected ≡ pos n = same_revision has revised.expected_then in
      (rw same refl, inr (rw same at revised.one_more))
    where
      same_revision :
          Has s n
          → (stored_revision table contents prediction_id s ≡ none)
            ⊎ (stored_revision table contents prediction_id s ≡ some (wire (int expected)))
          → expected ≡ pos n
      same_revision (inl (zero_n, missing)) then_is = is_read ∙ ap pos (omega arith)
      same_revision (inr found) (inl missing) = cc
      same_revision (inr found) (inr is) = wire-injective expected (pos n) cc

  -- every state passed has a revision of at most `n`
  abbrev Below : ℕ → List table.State → Type 0
  Below n ss = All (λ t. (m : ℕ) × Has t m × m ≤ n) ss

  Among-Below :
      {t : table.State} {n : ℕ} {ss : List table.State}
      → Among t ss
      → Below n ss
      → (m : ℕ) × Has t m × m ≤ n
  Among-Below here b = b.0
  Among-Below (later a) b = Among-Below a b.1

  Below-suc : (n : ℕ) (ss : List table.State) → Below n ss → Below (suc n) ss
  Below-suc n [] b = tt
  Below-suc n (s ∷ ss) ((m, has, le), b) = ((m, has, omega arith), Below-suc n ss b)

  Has-unchanged :
      (s s' : table.State) {n : ℕ}
      → Has s n
      → stored_revision table contents prediction_id s'
        ≡ stored_revision table contents prediction_id s
      → Has s' n
  Has-unchanged s s' (inl (zero_n, missing)) same = inl (zero_n, same ∙ missing)
  Has-unchanged s s' (inr found) same = inr (same ∙ found)

  -- the revision in the item that an update returns is the stored one
  returned-revision :
      {s : table.State} {revision : ℤ} (stored : Attributes) (m : ℤ)
      → item_at s (prediction_key prediction_id) ≡ some stored
      → stored_revision table contents prediction_id s ≡ some (wire (int m))
      → get "feedback_revision" (from_attributes nearest stored) ≡ some (int revision)
      → revision ≡ m
  returned-revision stored m is_stored is_revision shown =
      let kept : get "feedback_revision" stored ≡ some (wire (int m)) =
        rw is_stored at is_revision in
      let read = sym shown ∙ get-from_attributes "feedback_revision" stored in
      let same : some (int _) ≡ some (from_dynamodb nearest (wire (int m))) = rw kept at read in
      int-injective (rw (from_wire m) at same)

  abbrev Invariant : table.State → List table.State → List ℤ → Type 0
  Invariant s ss log = (n : ℕ) × (log ≡ countdown n) × Has s n × Below n (s ∷ ss)

  History-Invariant :
      {s : table.State} {ss : List table.State} {log : List ℤ}
      → History (s ∷ ss) log
      → Invariant s ss log
  unfolding countdown
  History-Invariant (created missing) =
      (0, refl, inl (refl, missing), ((0, inl (refl, missing), omega arith), tt))
  History-Invariant (accepted {s} {ss} others w w' feedback after h among meets run shown) =
      let (n, is_log, has, below) = History-Invariant h in
      let (m, has_then, le) = Among-Below among below in
      let (current, expected, stored, is_current, read, is_stored, is_after, revised, written) =
        update_feedback-IsUpdate table others contents repr utc_text nearest int_of_text
          prediction_id reads updates feedback w run in
      let is_read = read-Has has_then (current, is_current, read) in
      let (next, has_next) =
        revised-Has has is_read le
          (subst (λ t. IsRevised table contents prediction_id expected t w'.state) meets revised) in
      let returned =
        returned-revision stored (increment expected) is_stored revised.one_more
          (rw is_after at shown) in
      (
        suc n,
        cons_both (returned ∙ next) is_log,
        has_next,
        ((suc n, has_next, omega arith), Below-suc n (s ∷ ss) below),
      )
  History-Invariant (unrelated {s} {s'} {ss} h same) =
      let (n, is_log, has, below) = History-Invariant h in
      let has_same = Has-unchanged s s' has same in
      (n, is_log, has_same, ((n, has_same, omega arith), below))

  -- From a state without a revision, in any interleaving of calls of update_feedback for a
  -- prediction with steps that leave its revision alone, the revisions in the items that the
  -- accepted calls return are 1, 2, 3 and so on in the order of the writes: none is skipped, and no
  -- two calls that read the same revision are both accepted with it. The table reads and updates as
  -- documented, and every accepted call read one of the states passed.
  pub accepted_revisions :
      {s : table.State} {ss : List table.State} {log : List ℤ}
      → History (s ∷ ss) log
      → log ≡ countdown (length log)
  unfolding countdown
  accepted_revisions h =
      let (n, is_log, _, _) = History-Invariant h in
      is_log ∙ ap countdown (sym (ap length is_log ∙ length-countdown n))
