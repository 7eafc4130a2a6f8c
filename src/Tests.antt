-- ===== src/Tests.antt =====
-- Values at which the theorems are applied: a platform with whole numbers for floats and times, codecs, and a
-- LoRaWAN library that knows one frame.
pub mod PacketTests
pub mod FilterTests
pub mod SubscriptionTests
pub mod BackendTests
pub mod CommandTests
pub mod RadioTests
pub mod StationTests
pub mod SessionTests
pub mod ConfigTests
pub mod ConcentratordTests
pub mod DispatchTests
use chirpstack_gateway_bridg.Prelude.{
  ◌==◌, if◌then◌else◌, Bytes, codes, bytes_eq, ℕ, ◌-◌, ◌*◌, ◌/◌, refl, Option, none, some, [], ◌∷◌,
  arith,
}
use chirpstack_gateway_bridg.Prelude.Int.{ℤ, pos, negsuc, is_zero_ℤ}
use chirpstack_gateway_bridg.Platform.{Platform, Json, ReadsBack}
use chirpstack_gateway_bridg.Filters.{unconfirmed_data_up, mac_payload, Lorawan}

abbrev pub natural : ℤ → ℕ
natural (pos n) = n
natural (negsuc n) = 0

abbrev pub known : Option ℕ → Option ℤ
known none = none
known (some n) = some (pos n)

abbrev pub world : Platform
world = record {
  Float = ℤ;
  Time = ℕ;
  Timestamp = ℕ;
  Duration = ℕ;
  mhz_to_hz = λ f. natural f * 1000000;
  hz_to_mhz = λ n. pos (n / 1000000);
  is_zero = is_zero_ℤ;
  float_of_int = λ i. i;
  is_zero_time = λ t. t == 0;
  timestamp_proto = λ t. some t;
  duration = known;
  duration_proto = natural;
  modulation_name = λ m. codes "LORA";
}

-- A codec that knows one value, with the text `{}`.
abbrev pub constant_json {ℓ} : {A : Type ℓ} → A → Json A
constant_json a = record { marshal = λ x. some (123 ∷ 125 ∷ []); unmarshal = λ bs. some a }

pub constant_json-ReadsBack {ℓ} : {A : Type ℓ} (a : A) → ReadsBack (constant_json a) a
constant_json-ReadsBack a bs e = (ground arith, refl)

abbrev pub mac : Bytes
mac = 1 ∷ 2 ∷ 3 ∷ 4 ∷ 5 ∷ 6 ∷ 7 ∷ 8 ∷ []

abbrev pub dev_addr : Bytes
dev_addr = 9 ∷ 9 ∷ 9 ∷ 9 ∷ []

abbrev pub frame_bytes : Bytes
frame_bytes = 64 ∷ 9 ∷ 9 ∷ 9 ∷ 9 ∷ []

abbrev pub lorawan : Lorawan
lorawan = record {
  decode = λ bs.
      if bytes_eq bs frame_bytes
      then some (record { m_type = unconfirmed_data_up; payload = mac_payload dev_addr })
      else none;
  is_net_id = λ a n. bytes_eq a n;
  net_id_of_text = λ t. some t;
  eui_of_text = λ t. some t;
}
