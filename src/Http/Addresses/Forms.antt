-- ===== src/Http/Addresses/Forms.antt =====
-- The two readers of an address: `readAddressForm` of internal/adapter/http/app_address.go and
-- `toRegisterAddress` of internal/adapter/http/auth.go.
pub mod Same
use Prim.Native.String.{String}
use evermore.Base.{
  ℕ, Bool, true, false, not, ◌||◌, List, [], ◌∷◌, Option, none, some, if◌then◌else◌, Result, ok,
  err, refuse, ◌>>=◌, ◌>>◌,
}
use evermore.Platform.Sanitize.{Text, Unicode, FieldFailure, required, text, phone, same_text}
use evermore.Platform.Sanitize.Coordinates.{Floats, outside, lat_lng}
use evermore.Platform.Errors.{GoError, guarded, as_error, validation, from_error}
use evermore.Http.Addresses.{AddressFields}

-- The values that a form posts, and those of a JSON body.
pub record Posted : Type 0 where
  pub label : Text
  pub recipient_name : Text
  pub recipient_phone : Text
  pub address_line : Text
  pub district : Text
  pub city : Text
  pub province : Text
  pub postal_code : Text
  pub driver_note : Text
  pub formatted_address : Text
  pub google_place_id : Text
  pub latitude : Text
  pub longitude : Text
  pub is_default : Text

pub record RegisterRequestAddress {ℓ} (F : Type ℓ) : Type ℓ where
  pub label : Text
  pub recipient : Text
  pub phone : Text
  pub line : Text
  pub district : Text
  pub city : Text
  pub province : Text
  pub postal : Text
  pub note : Text
  pub place_id : Text
  pub formatted : Text
  pub lat : Option F
  pub lng : Option F

-- What the readers answer.
pub record AddressForm {ℓ} (F : Type ℓ) : Type ℓ where
  pub label : Text
  pub recipient : Text
  pub phone : Text
  pub line : Text
  pub district : Text
  pub city : Text
  pub province : Text
  pub postal : Text
  pub note : Text
  pub lat : F
  pub lng : F
  pub place_id : Text
  pub formatted : Text

-- An input guard's failure as an error.
abbrev pub guard {ℓ} : {A : Type ℓ} → Result FieldFailure A → Result GoError A
guard (ok a) = ok a
guard (err e) = err (guarded e)

-- A failure that `apierror.From` has wrapped.
abbrev guard_from {ℓ} : {A : Type ℓ} → Result FieldFailure A → Result GoError A
guard_from (ok a) = ok a
guard_from (err e) = err (as_error (from_error (guarded e)))

abbrev pinned {ℓ} : {F : Type ℓ} → Option F → Option F → String → Result GoError (F × F)
pinned none lng message = err (as_error (validation message))
pinned (some lat) none message = err (as_error (validation message))
pinned (some lat) (some lng) message = ok (lat, lng)

module _ {ℓ} {F : Type ℓ} (u : Unicode) (n : Floats F) where
  -- The bounding box of Indonesia.
  unfoldable pub outside_indonesia : F → F → Bool
  outside_indonesia lat lng = outside n true 115 65 lat || outside n false 945 1415 lng

  unfoldable pub read_address_form : Posted → Result GoError (AddressForm F × Bool)
  read_address_form c = do
    label ← guard (required u "label" c.label 40)
    recipient ← guard (required u "recipient_name" c.recipient_name 120)
    tel ← guard (phone u "recipient_phone" c.recipient_phone)
    line ← guard (required u "address_line" c.address_line 240)
    district ← guard (required u "district" c.district 80)
    city ← guard (required u "city" c.city 80)
    prov ← guard (required u "province" c.province 80)
    postal ← guard (text u "postal_code" c.postal_code 0 10)
    note ← guard (text u "driver_note" c.driver_note 0 240)
    formatted ← guard (text u "formatted_address" c.formatted_address 0 300)
    place_id ← guard (text u "google_place_id" c.google_place_id 0 120)
    pin ←
        pinned (n.parse_float c.latitude) (n.parse_float c.longitude)
          "Mark your location on the map before saving the address."
    guard_from (lat_lng n "latitude" pin.0 pin.1)
    refuse (outside_indonesia pin.0 pin.1)
        (as_error (validation "That map point is outside Indonesia."))
    ok (
      record {
        label = label;
        recipient = recipient;
        phone = tel;
        line = line;
        district = district;
        city = city;
        province = prov;
        postal = postal;
        note = note;
        lat = pin.0;
        lng = pin.1;
        place_id = place_id;
        formatted = formatted;
      },
      not (same_text c.is_default []),
    )

  unfoldable pub to_register_address : RegisterRequestAddress F → Result GoError (AddressForm F)
  to_register_address i = do
    label ← guard (required u "label" i.label 40)
    recipient ← guard (required u "recipient_name" i.recipient 120)
    tel ← guard (phone u "recipient_phone" i.phone)
    line ← guard (required u "address_line" i.line 240)
    district ← guard (required u "district" i.district 80)
    city ← guard (required u "city" i.city 80)
    province ← guard (required u "province" i.province 80)
    postal ← guard (text u "postal_code" i.postal 0 10)
    note ← guard (text u "driver_note" i.note 0 240)
    formatted ← guard (text u "formatted_address" i.formatted 0 300)
    place_id ← guard (text u "google_place_id" i.place_id 0 120)
    pin ← pinned i.lat i.lng "Mark your location on the map before registering."
    guard_from (lat_lng n "latitude" pin.0 pin.1)
    refuse (outside_indonesia pin.0 pin.1)
        (as_error (validation "That map point is outside Indonesia."))
    ok (record {
      label = label;
      recipient = recipient;
      phone = tel;
      line = line;
      district = district;
      city = city;
      province = province;
      postal = postal;
      note = note;
      lat = pin.0;
      lng = pin.1;
      place_id = place_id;
      formatted = formatted;
    })

-- `NULLIF(…, '')`
abbrev pub null_if_empty : Text → Option Text
null_if_empty [] = none
null_if_empty (r ∷ rs) = some (r ∷ rs)

-- The columns that a form fills.
unfoldable pub columns_of {ℓ} : {F : Type ℓ} → AddressForm F → AddressFields F
columns_of f = record {
  label = f.label;
  recipient = f.recipient;
  phone = f.phone;
  line = f.line;
  district = f.district;
  city = f.city;
  province = f.province;
  postal = f.postal;
  note = f.note;
  lat = f.lat;
  lng = f.lng;
  place_id = null_if_empty f.place_id;
  formatted = null_if_empty f.formatted;
}
