-- ===== src/Persistence/MemoryTable/Laws.antt =====
-- The table in memory does what the documentation promises of the requests of the repository.
use us_flight_delay_mlops.Prelude.{
  ◌≡◌, refl, sym, ap, ◌∙◌, Bool, true, false, ◌&&◌, ◌||◌, Bool-cases, Option, none, some, String,
  ◌⊎◌, inl, inr, arith, ◌=ₛ◌, eq_iff,
}
use us_flight_delay_mlops.Persistence.Codec.{Datum, str, Attributes, attribute, end, get}
use us_flight_delay_mlops.Persistence.Table.{Updated, UpdateMeans, GetMeans, PutMeans, IsPut, Wired}
use us_flight_delay_mlops.Persistence.Repository.{
  with_attribute, absent, feedback_changes, feedback_condition,
}
use us_flight_delay_mlops.Persistence.MemoryTable.{
  key, is_some, is_none, allowed, after_feedback, attempt, is_key, update, wired, put, table,
  contents,
}

get-with_attribute :
    (k : String) (v : Datum) (fields : Attributes) → get k (with_attribute k v fields) ≡ some v
unfolding get with_attribute
get-with_attribute k v end = rw ((eq_iff k k).1 refl) refl
get-with_attribute k v (attribute j u fields) = elim (Bool-cases (j =ₛ k)) [
  | inl same ↦ rw same (rw same refl)
  | inr other ↦ rw other (rw other (get-with_attribute k v fields))
]

get-with_other :
    (k j : String) (v : Datum) (fields : Attributes)
    → k =ₛ j ≡ false
    → get j (with_attribute k v fields) ≡ get j fields
unfolding get with_attribute
get-with_other k j v end h = rw h refl
get-with_other k j v (attribute i u fields) h = elim (Bool-cases (i =ₛ k)) [
  | inl same ↦ rw same (rw ((eq_iff i k).0 same) (rw h refl))
  | inr other ↦ rw other (rw (get-with_other k j v fields h) refl)
]

pub reads : (s : Option Attributes) → GetMeans table contents key s (table.get_item s key)
reads s = refl

is_some-true : (o : Option Datum) → is_some o ≡ true → (v : Datum) × (o ≡ some v)
is_some-true (some v) h = (v, refl)
is_some-true none h = cc

is_none-true : (o : Option Datum) → is_none o ≡ true → o ≡ none
is_none-true none h = refl
is_none-true (some v) h = cc

both_true : (a b : Bool) → a && b ≡ true → (a ≡ true) × (b ≡ true)
both_true a b h = ground arith

either_false : (a b : Bool) → a || (b || false) ≡ false → (a ≡ false) × (b ≡ false)
either_false a b h = ground arith

key_cases : (k : Datum) → (k ≡ key) ⊎ (is_key k ≡ false)
key_cases (str t) = elim (Bool-cases (t =ₛ "PREDICTION#p1")) [
  | inl same ↦ inl (ap str ((eq_iff t "PREDICTION#p1").0 same))
  | inr other ↦ inr other
]
key_cases k = inr refl

elsewhere :
    (after before : Option Attributes) (k : Datum)
    → (k ≡ key) ⊎ (contents.item_at after k ≡ contents.item_at before k)
elsewhere after before k = elim (key_cases k) [
  | inl same ↦ inl same
  | inr other ↦ inr (rw other refl)
]

attempt_means :
    (values : Attributes) (s : Option Attributes) (feedback revision : Option Datum)
    → get ":feedback" values ≡ feedback
    → get ":revision" values ≡ revision
    → UpdateMeans table contents key feedback_changes feedback_condition values s
        (attempt s feedback revision)
unfolding attempt
attempt_means values (some item) (some f) (some r) is_f is_r = elim (Bool-cases (allowed item)) [
  | inl here ↦ rw here (updated here)
  | inr not_here ↦ rw not_here (λ k. refl)
]
  where
    updated :
        allowed item ≡ true
        → Updated table contents key feedback_changes feedback_condition values
            (some item)
            (some (after_feedback f r item))
            (after_feedback f r item)
    updated is_allowed =
        let (has_pk, no_revision) = both_true _ _ is_allowed in
        record {
          held = (is_some-true _ has_pk, inl (is_none-true _ no_revision));
          stored = refl;
          assigned = (
            rw is_f (
                get-with_other "feedback_revision" "feedback" _ _ refl
                ∙ get-with_attribute "feedback" _ _),
            (rw is_r (get-with_attribute "feedback_revision" _ _), tt),
          );
          kept = λ b free.
              let (not_feedback, not_revision) = either_false _ _ free in
              get-with_other "feedback_revision" b _ _ not_revision
              ∙ get-with_other "feedback" b _ _ not_feedback;
          elsewhere = elsewhere (some (after_feedback f r item)) (some item);
        }
attempt_means values none f r is_f is_r = λ k. refl
attempt_means values (some item) none r is_f is_r = λ k. refl
attempt_means values (some item) (some f) none is_f is_r = λ k. refl

pub updates :
    (values : Attributes) (s : Option Attributes)
    → UpdateMeans table contents key feedback_changes feedback_condition values s
        (table.update_item s key feedback_changes feedback_condition values)
unfolding update
updates values s =
    attempt_means values s (get ":feedback" values) (get ":revision" values) refl refl

get-wired :
    (b : String) (fields : Attributes) → Wired table contents (get b fields) (get b (wired fields))
unfolding get
get-wired b end = refl
get-wired b (attribute k v fields) = elim (Bool-cases (k =ₛ b)) [
  | inl same ↦ rw same refl
  | inr other ↦ rw other (get-wired b fields)
]

key_is : (k : Datum) → is_key k ≡ true → k ≡ key
key_is k h = elim (key_cases k) [ inl same ↦ same | inr other ↦ absurd (cc (sym h ∙ other)) ]

put_means :
    (item : Attributes) (s : Option Attributes) (k : Option Datum)
    → get "pk" item ≡ k
    → PutMeans table contents item absent s (put s item k)
put_means item none (some k) is = elim (Bool-cases (is_key k)) [
  | inl here ↦ rw here (created here)
  | inr away ↦ rw away (λ k'. refl)
]
  where
    created : is_key k ≡ true → IsPut table contents item absent none (some (wired item))
    created here = record {
      key = k;
      after = wired item;
      keyed = is;
      held = rw here refl;
      stored = rw here refl;
      written = λ b. get-wired b item;
      elsewhere = rw (key_is k here) (elsewhere (some (wired item)) none);
    }
put_means item none none is = λ k. refl
put_means item (some stored) k is = λ k. refl

pub puts :
    (item : Attributes) (s : Option Attributes)
    → PutMeans table contents item absent s (table.put_item s item absent)
puts item s = put_means item s (get "pk" item) refl
