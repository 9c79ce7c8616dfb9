-- ===== src/Persistence/MemoryTable.antt =====
-- A table in memory with room for the item of one prediction.
pub mod Laws
use us_flight_delay_mlops.Prelude.{
  suc, ◌*◌, ◌≡◌, refl, sym, ap, ◌∙◌, Bool, true, false, ◌&&◌, ◌||◌, Bool-cases, Option, none, some,
  String, ◌⊎◌, inl, inr, arith, ◌=ₛ◌, eq_iff, if◌then◌else◌,
}
use us_flight_delay_mlops.Prelude.Int.{ℤ, pos, negsuc, negate}
use us_flight_delay_mlops.Persistence.Codec.{
  Datum, str, int, decimal, Attributes, attribute, end, get, whole,
}
use us_flight_delay_mlops.Persistence.Table.{
  Reply, done, refused, rejected, Table, Contents, Updated, UpdateMeans, GetMeans, PutMeans, IsPut,
  Wired,
}
use us_flight_delay_mlops.Persistence.Repository.{
  with_attribute, prediction_key, absent, feedback_changes, feedback_condition,
}

abbrev pub key : Datum
key = prediction_key "p1"

abbrev pub wire : Datum → Datum
wire (int n) = decimal (record { coefficient = n; exponent = pos 0 })
wire v = v

pub whole_int : (n : ℤ) → whole (record { coefficient = n; exponent = pos 0 }) ≡ some n
unfolding whole
whole_int (pos n) = ap (λ m. some (pos m)) (omega arith)
whole_int (negsuc n) =
    let one : suc n * 1 ≡ suc n = omega arith in ap (λ m. some (negate (pos m))) one

abbrev pub is_some : Option Datum → Bool
is_some (some v) = true
is_some none = false

abbrev pub is_none : Option Datum → Bool
is_none (some v) = false
is_none none = true

-- the item is there, without feedback: only a first feedback is accepted
abbrev pub allowed : Attributes → Bool
allowed item = is_some (get "pk" item) && is_none (get "feedback_revision" item)

abbrev pub after_feedback : Datum → Datum → Attributes → Attributes
after_feedback feedback revision item =
    with_attribute "feedback_revision" (wire revision)
      (with_attribute "feedback" (wire feedback) item)

-- the update of the feedback
unfoldable pub attempt :
    Option Attributes → Option Datum → Option Datum → Reply Attributes × Option Attributes
attempt (some item) (some feedback) (some revision) =
    if allowed item
    then (
      done (after_feedback feedback revision item),
      some (after_feedback feedback revision item),
    )
    else (refused, some item)
attempt s feedback revision = (rejected, s)

abbrev pub is_key : Datum → Bool
is_key (str t) = t =ₛ "PREDICTION#p1"
is_key _ = false

unfoldable pub update :
    Option Attributes → Datum → Attributes → Reply Attributes × Option Attributes
unfolding attempt
update s k values =
    if is_key k then attempt s (get ":feedback" values) (get ":revision" values) else (rejected, s)

abbrev pub wired : Attributes → Attributes
wired end = end
wired (attribute k v fields) = attribute k (wire v) (wired fields)

-- the put of an item whose key is that of the prediction, where there is none
abbrev pub put :
    Option Attributes → Attributes → Option Datum → Reply (Unit {0}) × Option Attributes
put none item (some k) = if is_key k then (done tt, some (wired item)) else (rejected, none)
put (some stored) item k = (refused, some stored)
put s item k = (rejected, s)

abbrev pub table : Table
table = record {
  State = Option Attributes;
  load = λ s. true;
  get_item = λ s k. if is_key k then done s else done none;
  put_item = λ s item condition. put s item (get "pk" item);
  update_item = λ s k changes condition values. update s k values;
}

abbrev pub contents : Contents table
contents = record {
  item_at = λ s k. if is_key k then s else none;
  wire = wire;
  wire_int = λ n. (record { coefficient = n; exponent = pos 0 }, refl, whole_int n);
}
