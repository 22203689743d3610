-- ===== src/Adapters/Ocpi/Lossless.antt =====
-- The round trip of a charge detail record (adapters/ocpi/adapter.py).
use otto_q_core.Base.{String, ◌≡◌, refl, ap, Bool, true, false, Option, none, some, arith}
use otto_q_core.Adapters.Ocpi.{
  Floats, TextField, str_of, CdrLocation, min_to_ocpi_time, ocpi_time_to_min, location_of,
  cdr_to_sdr, Cdr, sdr_to_cdr, absent, null, text,
}

abbrev pub is_text : TextField → Bool
is_text absent = false
is_text null = false
is_text (text s) = true

abbrev pub is_located : Option CdrLocation → Bool
is_located none = false
is_located (some loc) = is_text loc.depot_id

-- Every key that is read as a text holds one, and the location is there.
abbrev pub IsComplete : {Float : Type 0} → Cdr Float → Type 0
IsComplete c =
    (is_text c.id ≡ true)
    × (is_text c.start_date_time ≡ true)
    × (is_text c.end_date_time ≡ true)
    × (is_text c.currency ≡ true)
    × (is_text c.cdr_token ≡ true)
    × (is_text c.last_updated ≡ true)
    × (is_located c.cdr_location ≡ true)

text-str_of : (f : TextField) → is_text f ≡ true → text (str_of f) ≡ f
unfolding str_of
text-str_of absent h = ground arith
text-str_of null h = ground arith
text-str_of (text s) h = refl

-- A time that was turned into minutes and back into hours.
abbrev pub there_and_back : {Float : Type 0} → Floats Float → Option Float → Option Float
there_and_back floats none = none
there_and_back floats (some t) = some (floats.over (floats.times t floats.sixty) floats.sixty)

converted :
    {Float : Type 0} (floats : Floats Float) (o : Option Float)
    → min_to_ocpi_time floats (ocpi_time_to_min floats o) ≡ there_and_back floats o
unfolding min_to_ocpi_time ocpi_time_to_min
converted floats none = refl
converted floats (some t) = refl

located :
    (o : Option CdrLocation)
    → is_located o ≡ true
    → some (record {
      depot_id = text (str_of (location_of o).depot_id);
      stall_id = (location_of o).stall_id;
    })
      ≡ o
unfolding location_of
located none h = ground arith
located (some loc) h =
    ap (λ (d : TextField). some (record { depot_id = d; stall_id = loc.stall_id }))
      (text-str_of loc.depot_id h)

-- The round trip of a charge detail record through a service detail record changes at most its
-- time:
-- one whose texts and location are there comes back with every other field as it was, whatever
-- dimensions the caller adds, and with a time that was multiplied and then divided by 60 in floats.
pub sdr_to_cdr-cdr_to_sdr :
    {Float : Type 0} (floats : Floats Float) (c : Cdr Float)
    (operation_code pack_id asset_class_code : String)
    → IsComplete c
    → sdr_to_cdr floats (cdr_to_sdr floats c operation_code pack_id asset_class_code)
      ≡ record c { total_time = there_and_back floats c.total_time }
unfolding sdr_to_cdr cdr_to_sdr
sdr_to_cdr-cdr_to_sdr floats c o p a h =
    rw
      (
        text-str_of c.id h.0,
        text-str_of c.start_date_time h.1,
        text-str_of c.end_date_time h.2,
        text-str_of c.currency h.3,
        converted floats c.total_time,
        text-str_of c.cdr_token h.4,
        text-str_of c.last_updated h.5,
        located c.cdr_location h.6,
      )
      refl
