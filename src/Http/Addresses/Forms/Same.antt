-- ===== src/Http/Addresses/Forms/Same.antt =====
-- The sign-up and the address screen read an address alike.
use evermore.Base.{Bool, ◌≡◌, arith, Option, none, some, Result, ok, err}
use evermore.Platform.Sanitize.{Unicode}
use evermore.Platform.Sanitize.Coordinates.{Floats}
use evermore.Platform.Errors.{GoError}
use evermore.Http.Addresses.Forms.{
  Posted, RegisterRequestAddress, AddressForm, read_address_form, to_register_address,
}

-- The JSON body that says what a form says.
abbrev as_request {ℓ} : {F : Type ℓ} → Floats F → Posted → RegisterRequestAddress F
as_request n c = record {
  label = c.label;
  recipient = c.recipient_name;
  phone = c.recipient_phone;
  line = c.address_line;
  district = c.district;
  city = c.city;
  province = c.province;
  postal = c.postal_code;
  note = c.driver_note;
  place_id = c.google_place_id;
  formatted = c.formatted_address;
  lat = n.parse_float c.latitude;
  lng = n.parse_float c.longitude;
}

-- What each reader accepts.
abbrev pub accepted {ℓ} : {A : Type ℓ} → Result GoError A → Option A
accepted (ok a) = some a
accepted (err e) = none

abbrev accepted_form {ℓ} :
    {F : Type ℓ} → Result GoError (AddressForm F × Bool) → Option (AddressForm F)
accepted_form (ok a) = some a.0
accepted_form (err e) = none

-- The sign-up accepts an address exactly when the address screen does, and both read the same
-- fields from it.
register-alike {ℓ} :
    {F : Type ℓ} (u : Unicode) (n : Floats F) (c : Posted)
    → accepted (to_register_address u n (as_request n c)) ≡ accepted_form (read_address_form u n c)
unfolding to_register_address read_address_form
register-alike u n c = ground arith
