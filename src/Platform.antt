-- ===== src/Platform.antt =====
-- What the program takes from code outside the repository: floating-point numbers, clock times, the
-- protobuf helpers of `ptypes`, `encoding/json` and random identifiers. They are parameters of the
-- model. The messages of `chirpstack-api/go/gw` are records with the fields that the source uses.
use chirpstack_gateway_bridg.Prelude.{length, Bytes, ℕ, ◌≤◌, ◌≡◌, Bool, Option, none, some}
use chirpstack_gateway_bridg.Prelude.Int.{ℤ}

-- `common.Modulation`, an open protobuf enumeration.
pub data Modulation : Type 0 where
  lora fsk : Modulation
  other_modulation : ℕ → Modulation

pub record Platform : Type 1 where
  pub Float : Type 0
  pub Time : Type 0
  -- `timestamp.Timestamp` and `duration.Duration`
  pub Timestamp : Type 0
  pub Duration : Type 0
  -- `uint32(f * 1000000)` and `float64(n) / 1000000`
  pub mhz_to_hz : Float → ℕ
  pub hz_to_mhz : ℕ → Float
  pub is_zero : Float → Bool
  pub float_of_int : ℤ → Float
  pub is_zero_time : Time → Bool
  -- `ptypes.TimestampProto`, `ptypes.Duration` (in nanoseconds) and `ptypes.DurationProto`
  pub timestamp_proto : Time → Option Timestamp
  pub duration : Option Duration → Option ℤ
  pub duration_proto : ℤ → Duration
  -- `Modulation.String`
  pub modulation_name : Modulation → Bytes

-- `encoding/json` at one type.
pub record Json {ℓ} (A : Type ℓ) : Type ℓ where
  pub marshal : A → Option Bytes
  pub unmarshal : Bytes → Option A

-- The value `a` is written as text of two bytes or more, `{}` at least, and is read back from it.
abbrev pub ReadsBack {ℓ} : {A : Type ℓ} → Json A → A → Type ℓ
ReadsBack j a = (bs : Bytes) → j.marshal a ≡ some bs → (2 ≤ length bs) × (j.unmarshal bs ≡ some a)

pub record LoraModulationInfo : Type 0 where
  pub bandwidth : ℕ
  pub spreading_factor : ℕ
  pub code_rate : Bytes
  pub polarization_inversion : Bool

pub record FskModulationInfo : Type 0 where
  pub frequency_deviation : ℕ
  pub datarate : ℕ

-- The `oneof` of the modulation, which may be unset.
pub data ModulationInfo : Type 0 where
  no_modulation_info : ModulationInfo
  lora_modulation_info : LoraModulationInfo → ModulationInfo
  fsk_modulation_info : FskModulationInfo → ModulationInfo

-- `GetLoraModulationInfo` and `GetFskModulationInfo`
abbrev pub get_lora_info : ModulationInfo → Option LoraModulationInfo
get_lora_info (lora_modulation_info i) = some i
get_lora_info no_modulation_info = none
get_lora_info (fsk_modulation_info i) = none

abbrev pub get_fsk_info : ModulationInfo → Option FskModulationInfo
get_fsk_info (fsk_modulation_info i) = some i
get_fsk_info no_modulation_info = none
get_fsk_info (lora_modulation_info i) = none

-- `gw.DownlinkTiming`, an open protobuf enumeration, and the `oneof` of its parameters. The field of
-- a timing-info message may itself be unset.
pub data Timing : Type 0 where
  immediately delay gps_epoch : Timing
  other_timing : ℕ → Timing

pub data TimingInfo (D : Type 0) : Type 0 where
  no_timing_info : TimingInfo D
  delay_timing_info gps_epoch_timing_info : Option D → TimingInfo D

pub record DownlinkTxInfo (D : Type 0) : Type 0 where
  pub gateway_id : Bytes
  pub frequency : ℕ
  pub power : ℤ
  pub modulation : Modulation
  pub modulation_info : ModulationInfo
  pub board : ℕ
  pub antenna : ℕ
  pub timing : Timing
  pub timing_info : TimingInfo D
  pub context : Bytes

pub record DownlinkFrame (D : Type 0) : Type 0 where
  pub phy_payload : Bytes
  pub tx_info : Option (DownlinkTxInfo D)
  pub token : ℕ
  pub downlink_id : Bytes

pub data CrcStatus : Type 0 where
  no_crc bad_crc crc_ok : CrcStatus

pub record UplinkTxInfo : Type 0 where
  pub frequency : ℕ
  pub modulation : Modulation
  pub modulation_info : ModulationInfo

-- `EncryptedFineTimestamp`
pub record FineTimestamp : Type 0 where
  pub encrypted_ns : Bytes
  pub aes_key_index : ℕ

pub record UplinkRxInfo (w : Platform) : Type 0 where
  pub gateway_id : Bytes
  pub time : Option w.Timestamp
  pub time_since_gps_epoch : Option w.Duration
  pub rssi : ℤ
  pub lora_snr : w.Float
  pub channel : ℕ
  pub rf_chain : ℕ
  pub board : ℕ
  pub antenna : ℕ
  pub context : Bytes
  pub crc_status : CrcStatus
  pub fine_timestamp : Option FineTimestamp
  pub uplink_id : Bytes

pub record UplinkFrame (w : Platform) : Type 0 where
  pub phy_payload : Bytes
  pub tx_info : UplinkTxInfo
  pub rx_info : UplinkRxInfo w

pub record Location (w : Platform) : Type 0 where
  pub latitude : w.Float
  pub longitude : w.Float
  pub altitude : w.Float

pub record GatewayStats (w : Platform) : Type 0 where
  pub gateway_id : Bytes
  pub ip : Bytes
  pub time : w.Timestamp
  pub location : Option (Location w)
  pub config_version : Bytes
  pub rx_packets_received : ℕ
  pub rx_packets_received_ok : ℕ
  pub tx_packets_received : ℕ
  pub tx_packets_emitted : ℕ
  pub stats_id : Bytes

pub record DownlinkTxAck : Type 0 where
  pub gateway_id : Bytes
  pub token : ℕ
  pub downlink_id : Bytes
  pub error : Bytes
