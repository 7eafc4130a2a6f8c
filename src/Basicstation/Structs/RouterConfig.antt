-- ===== src/Basicstation/Structs/RouterConfig.antt =====
-- internal/backend/basicstation/structs/router_config.go: the configuration of the concentrators that is sent to a
-- station. Frequencies are `uint32`, and intermediate frequencies are Go's `int`, of 64 bits.
pub mod Concentrator
pub mod Copies
pub mod Entries
pub mod Frequencies
pub mod Tuned
use chirpstack_gateway_bridg.Prelude.{
  ltb, leb, ◌==◌, if◌then◌else◌, ltb→lt, lt→ltb, leb→le, ==_iff, Bool-cases, Option-cases, is_some,
  then-eq, else-eq, length, get_or, take, drop, length-append, take-append, drop-append, take_all,
  length-take, take-append-drop, All, All-append, set_at, set_from, fill, set_from-fill, Pointwise,
  Result, ok, err, ◌>>=◌, map_err, >>=-eq-ok, ok-injective, or_fail, or_fail-eq-ok, Result-cases,
  Bytes, AreBytes, codes, bytes_eq, bytes_eq_iff, put_u16_le, put_u32_be, from_be, u_be, Key,
  nat_key, bytes_key, beq_refl, lookup, insert, delete, lookup-insert, lookup-delete, ℕ, zero, suc,
  ◌+◌, ◌-◌, ◌*◌, ◌/◌, ◌%◌, ◌^◌, ◌≤◌, ◌<◌, ◌≡◌, refl, sym, ap, ◌∙◌, ◌≢◌, ◌↔◌, ◌⊎◌, inl, inr, Bool,
  true, false, not, ◌&&◌, ◌||◌, Option, none, some, List, [], ◌∷◌, ◌++◌, map, arith,
}
use chirpstack_gateway_bridg.Prelude.Int.{
  ℤ, pos, negsuc, negate, quotient, wrap, int64, mul_int64, is_zero_ℤ, int_sub, add_int,
  add_int-int_sub,
}
use chirpstack_gateway_bridg.Decimal.{
  digits, format_uint, is_digit, read_digits, below, parse_uint, AreDigits, format_uint-AreDigits,
  format_uint-ne-nil, parse_uint_of, parse_uint-format_uint,
}
use chirpstack_gateway_bridg.Platform.{
  Modulation, lora, fsk, other_modulation, Platform, Json, ReadsBack, LoraModulationInfo,
  FskModulationInfo, ModulationInfo, no_modulation_info, lora_modulation_info, fsk_modulation_info,
  get_lora_info, get_fsk_info, Timing, immediately, delay, gps_epoch, other_timing, TimingInfo,
  no_timing_info, delay_timing_info, gps_epoch_timing_info, DownlinkTxInfo, DownlinkFrame,
  CrcStatus, no_crc, bad_crc, crc_ok, UplinkTxInfo, FineTimestamp, UplinkRxInfo, UplinkFrame,
  Location, GatewayStats, DownlinkTxAck,
}
use chirpstack_gateway_bridg.Sx1301.Radios.{
  LoraModulationConfig, FskModulationConfig, ModulationConfig, no_modulation_config,
  lora_modulation_config, fsk_modulation_config, get_lora_config, get_fsk_config, Channel,
  channel_bandwidth, radio_bandwidth, min_radio_center_freq, RadioError, does_not_fit,
  get_radio_frequencies, get_radio_for_channel,
}
use chirpstack_gateway_bridg.Basicstation.Structs.{
  BandModulation, lora_band, fsk_band, other_band, BandDataRate, Station, RadioMetaData,
  UplinkError, bad_data_rate, bad_timestamp, bad_fopts, bad_frm_payload, put_u64_be, put_u32_le,
  tx_info_of, times_of, set_radio_meta_data_to_proto,
}

-- `band.Name`
pub data Region : Type 0 where
  as923 au915 cn470 cn779 eu433 eu868 in865 kr920 us915 ru864 other_region : Region

-- `regionNameMapping`, where a missing name is empty.
unfoldable pub region_name : Region → Bytes
region_name as923 = codes "AS923"
region_name au915 = codes "AU915"
region_name cn470 = codes "CN470"
region_name cn779 = codes "CN779"
region_name eu433 = codes "EU433"
region_name eu868 = codes "EU863"
region_name in865 = codes "IN865"
region_name kr920 = codes "KR920"
region_name us915 = codes "US902"
region_name ru864 = codes "RU864"
region_name other_region = []

-- What is used of `band.Band`: the data rates, and the indices of those of uplinks.
pub record Band : Type 0 where
  pub get_data_rate : ℕ → Option BandDataRate
  pub uplink_index : BandDataRate → Option ℤ

pub record ChanLoraStd : Type 0 where
  pub enable : Bool
  pub radio : ℕ
  pub if_freq : ℤ
  pub bandwidth : ℕ
  pub spreading_factor : ℕ

pub record ChanMultiSf : Type 0 where
  pub enable : Bool
  pub radio : ℕ
  pub if_freq : ℤ

-- `SX1301Conf`, with the two radios and the eight multi-SF channels as lists. A radio is enabled if its
-- frequency is not 0.
pub record Sx1301Conf : Type 0 where
  pub radios : List (Bool × ℕ)
  pub chan_fsk : Bool
  pub chan_lora_std : ChanLoraStd
  pub chan_multi_sf : List ChanMultiSf

pub record RouterConfig : Type 0 where
  pub message_type : Bytes
  pub net_id : List ℕ
  pub join_eui : List (ℕ × ℕ)
  pub region : Bytes
  pub hw_spec : Bytes
  pub freq_range : ℕ × ℕ
  pub drs : List (ℤ × ℤ × ℤ)
  pub sx1301_conf : List Sx1301Conf

pub data RouterError : Type 0 where
  no_band_config : RouterError
  radio_error : RadioError → RouterError

-- Go's zero values.
abbrev pub no_multi_sf : ChanMultiSf
no_multi_sf = record { enable = false; radio = 0; if_freq = pos 0 }

abbrev pub no_lora_std : ChanLoraStd
no_lora_std = record {
  enable = false;
  radio = 0;
  if_freq = pos 0;
  bandwidth = 0;
  spreading_factor = 0;
}

-- The loop that sets the radios.
abbrev pub radios_of : List ℕ → List (Bool × ℕ)
radios_of = map (λ f. (not (f == 0), f))

-- A multi-SF channel of the radio `r`, with centre frequency `f`.
unfoldable pub multi_sf_entry : Channel → ℕ → ℕ → ChanMultiSf
multi_sf_entry c r f = record { enable = true; radio = r; if_freq = int_sub c.frequency f }

-- A LoRa channel: one with a single spreading factor is the standard channel, and any other one is the next
-- multi-SF channel, which is dropped after the eighth.
lora_channel : Channel → ℕ → ℕ → Sx1301Conf × ℕ → Option LoraModulationConfig → Sx1301Conf × ℕ
unfolding multi_sf_entry
lora_channel c r f s none = s
lora_channel c r f (conf, n) (some i) = elim i.spreading_factors [
  | sf ∷ [] ↦ (
    record conf {
      chan_lora_std = record {
        enable = true;
        radio = r;
        if_freq = int_sub c.frequency f;
        bandwidth = i.bandwidth * 1000 % 2 ^ 32;
        spreading_factor = sf;
      };
    },
    n,
  )
  | _ ↦ (record conf { chan_multi_sf = set_at n (multi_sf_entry c r f) conf.chan_multi_sf }, suc n)
]

-- The `switch` on the modulation.
with_channel : Channel → ℕ → ℕ → Sx1301Conf × ℕ → Modulation → Sx1301Conf × ℕ
unfolding lora_channel
with_channel c r f s lora = lora_channel c r f s (get_lora_config c.modulation_config)
with_channel c r f (conf, n) fsk = (record conf { chan_fsk = true }, n)
with_channel c r f s (other_modulation m) = s

-- The loop over the channels. The number is that of the multi-SF channels so far.
with_channels : List ℕ → List Channel → Sx1301Conf × ℕ → Result RouterError (Sx1301Conf × ℕ)
unfolding with_channel
with_channels radios [] s = ok s
with_channels radios (c ∷ cs) s = do
  r ← map_err radio_error (get_radio_for_channel radios c)
  with_channels radios cs (with_channel c r (get_or radios r 0) s c.modulation)

-- Before the channels are set.
abbrev pub start_conf : List ℕ → Sx1301Conf
start_conf radios = record {
  radios = radios_of radios;
  chan_fsk = false;
  chan_lora_std = no_lora_std;
  chan_multi_sf = fill 8 [] no_multi_sf;
}

-- One concentrator. `GetRadioFrequencies` sorts the list of the channels in place, and the loop takes them in that
-- order.
unfoldable pub sx1301_conf_of :
    (List Channel → List Channel) → List Channel → Result RouterError Sx1301Conf
unfolding with_channels
sx1301_conf_of sort channels = do
  radios ← map_err radio_error (get_radio_frequencies sort channels)
  last ← with_channels radios (sort channels) (
    record {
      radios = radios_of radios;
      chan_fsk = false;
      chan_lora_std = no_lora_std;
      chan_multi_sf = fill 8 [] no_multi_sf;
    },
    0,
  )
  ok last.0

-- The entry of `DRs` for one data rate: its last number is 1 if it is for downlinks only, which is so if
-- `GetDataRateIndex(true, dr)` finds no data rate for uplinks.
dr_entry : Band → Option BandDataRate → ℤ × ℤ × ℤ
dr_entry band none = (negsuc 0, pos 0, pos 0)
dr_entry band (some d) =
    (d.spread_factor, d.bandwidth, if is_some (band.uplink_index d) then pos 0 else pos 1)

-- The sixteen data rates, from number `i` on.
drs_from : Band → ℕ → ℕ → List (ℤ × ℤ × ℤ)
unfolding dr_entry
drs_from band i zero = []
drs_from band i (suc n) = dr_entry band (band.get_data_rate i) ∷ drs_from band (suc i) n

-- What both functions set: `concentrators` is the number in the hardware's name.
unfoldable pub base_config :
    Region → List Bytes → List (Bytes × Bytes) → ℕ × ℕ → Band → ℕ → List Sx1301Conf → RouterConfig
unfolding region_name drs_from
base_config region net_ids join_euis range band concentrators confs = record {
  message_type = codes "router_config";
  net_id = map (λ id. u_be (0 ∷ id)) net_ids;
  join_eui = map (λ set. (u_be set.0, u_be set.1)) join_euis;
  region = region_name region;
  hw_spec = codes "sx1301/" ++ format_uint concentrators;
  freq_range = range;
  drs = drs_from band 0 16;
  sx1301_conf = confs;
}

-- `GetRouterConfigOld`, where `band` is what `band.GetConfig` returns for the region.
unfoldable pub get_router_config_old :
    (List Channel → List Channel)
    → Region
    → Option Band
    → List Bytes
    → List (Bytes × Bytes)
    → ℕ × ℕ
    → List Channel
    → Result RouterError RouterConfig
unfolding base_config sx1301_conf_of
get_router_config_old sort region band net_ids join_euis range channels = do
  b ← or_fail no_band_config band
  conf ← sx1301_conf_of sort channels
  ok (base_config region net_ids join_euis range b 1 (conf ∷ []))
