-- ===== src/Api/ReadingExamples.antt =====
-- A stored prediction with feedback made public, and the theorem at this item.
use us_flight_delay_mlops.Prelude.{◌≡◌, refl}
use us_flight_delay_mlops.Prelude.Int.{pos}
use us_flight_delay_mlops.Python.Result.{ok}
use us_flight_delay_mlops.Persistence.Codec.{str, int, mapping, Attributes, attribute, end, get}
use us_flight_delay_mlops.Persistence.Repository.{with_attribute}
use us_flight_delay_mlops.Api.Reading.{without, with_revision, public_record}
use us_flight_delay_mlops.Api.Reading.Public.{IsPublic, public_record-IsPublic}

abbrev item : Attributes
item = attribute "pk" (str "PREDICTION#p1") (
    attribute "risk_band" (str "high") (
      attribute "feedback" (mapping (attribute "source" (str "user") end))
        (attribute "feedback_revision" (int (pos 2)) end)))

abbrev payload : Attributes
payload = attribute "risk_band" (str "high") (
    attribute "feedback"
      (mapping (attribute "source" (str "user") (attribute "feedback_revision" (int (pos 2)) end)))
      end)

made_public : public_record item ≡ ok payload
unfolding public_record without with_revision get with_attribute
made_public = refl

public_record-IsPublic_example : IsPublic item payload
public_record-IsPublic_example = public_record-IsPublic item made_public
