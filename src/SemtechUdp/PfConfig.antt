-- ===== src/SemtechUdp/PfConfig.antt =====
-- internal/backend/semtechudp/pf_config.go: the configuration of a packet-forwarder, from the channels of the
-- network-server. Frequencies are Go's `int`, of 64 bits, which the sums and differences here do not leave.
pub mod Tuned
pub mod Merge
pub mod SameTests
pub mod Agreement
use chirpstack_gateway_bridg.Prelude.{
  ltb, leb, ◌==◌, if◌then◌else◌, ltb→lt, lt→ltb, leb→le, ==_iff, Bool-cases, Option-cases, is_some,
  then-eq, else-eq, length, get_or, take, drop, length-append, take-append, drop-append, take_all,
  length-take, take-append-drop, All, All-append, set_at, set_from, fill, set_from-fill, Pointwise,
  Result, ok, err, ◌>>=◌, map_err, >>=-eq-ok, ok-injective, or_fail, or_fail-eq-ok, Result-cases,
  guard-eq-ok, Bytes, AreBytes, codes, bytes_eq, bytes_eq_iff, put_u16_le, put_u32_be, from_be,
  u_be, Key, nat_key, bytes_key, beq_refl, lookup, insert, delete, lookup-insert, lookup-delete, ℕ,
  zero, suc, ◌+◌, ◌-◌, ◌*◌, ◌/◌, ◌%◌, ◌^◌, ◌≤◌, ◌<◌, ◌≡◌, refl, sym, ap, ◌∙◌, ◌≢◌, ◌↔◌, ◌⊎◌, inl,
  inr, Bool, true, false, not, ◌&&◌, ◌||◌, Option, none, some, List, [], ◌∷◌, ◌++◌, map, arith,
}
use chirpstack_gateway_bridg.Prelude.Int.{
  ℤ, pos, negsuc, negate, quotient, wrap, int64, mul_int64, is_zero_ℤ, int_sub, add_int,
  add_int-int_sub, sub_from, add_ℤ, sub_int, leb_ℤ, add_ℤ-sub_from,
}
use chirpstack_gateway_bridg.Platform.{
  Modulation, lora, fsk, other_modulation, Platform, Json, ReadsBack, LoraModulationInfo,
  FskModulationInfo, ModulationInfo, no_modulation_info, lora_modulation_info, fsk_modulation_info,
  get_lora_info, get_fsk_info, Timing, immediately, delay, gps_epoch, other_timing, TimingInfo,
  no_timing_info, delay_timing_info, gps_epoch_timing_info, DownlinkTxInfo, DownlinkFrame,
  CrcStatus, no_crc, bad_crc, crc_ok, UplinkTxInfo, FineTimestamp, UplinkRxInfo, UplinkFrame,
  Location, GatewayStats, DownlinkTxAck,
}
use chirpstack_gateway_bridg.Sx1301.Radios.{
  LoraModulationConfig, FskModulationConfig, ModulationConfig, no_modulation_config,
  lora_modulation_config, fsk_modulation_config, get_lora_config, get_fsk_config, Channel,
  channel_bandwidth, radio_bandwidth, min_radio_center_freq, RadioError, does_not_fit,
  get_radio_frequencies, get_radio_for_channel,
}

pub record RadioConfig : Type 0 where
  pub enable : Bool
  pub freq : ℤ

pub record MultiSfChannelConfig : Type 0 where
  pub enable : Bool
  pub radio : ℕ
  pub if_freq : ℤ
  pub freq : ℕ

pub record LoraStdChannelConfig : Type 0 where
  pub enable : Bool
  pub radio : ℕ
  pub if_freq : ℤ
  pub bandwidth : ℕ
  pub spread_factor : ℕ
  pub freq : ℕ

pub record FskChannelConfig : Type 0 where
  pub enable : Bool
  pub radio : ℕ
  pub if_freq : ℤ
  pub bandwidth : ℕ
  pub data_rate : ℕ
  pub freq : ℕ

-- `gatewayConfiguration`, with its two arrays as lists.
pub record GatewayConfig : Type 0 where
  pub radios : List RadioConfig
  pub multi_sf_channels : List MultiSfChannelConfig
  pub lora_std_channel_config : LoraStdChannelConfig
  pub fsk_channel_config : FskChannelConfig

pub data ConfigError : Type 0 where
  fsk_config_is_nil fsk_already_configured lora_config_is_nil : ConfigError
  lora_std_already_configured too_many_multi_sf_channels : ConfigError
  invalid_modulation : ℕ → ConfigError

abbrev pub radio_count : ℕ
radio_count = 2

abbrev pub channel_count : ℕ
channel_count = 8

-- In Go's `int`, where nothing wraps.
unfoldable pub bandwidth_in_hz : Modulation → ModulationConfig → ℕ
bandwidth_in_hz lora (lora_modulation_config i) = i.bandwidth * 1000
bandwidth_in_hz fsk (fsk_modulation_config i) = i.bandwidth * 1000
bandwidth_in_hz m i = 0

unfoldable pub pf_bandwidth : Channel → ℕ
unfolding bandwidth_in_hz
pf_bandwidth c = bandwidth_in_hz c.modulation c.modulation_config

unfoldable pub pf_half_radio : Channel → ℕ
unfolding pf_bandwidth
pf_half_radio c = radio_bandwidth (pf_bandwidth c) / 2

unfoldable pub pf_channel_min : Channel → ℤ
unfolding pf_bandwidth
pf_channel_min c = int_sub c.frequency (pf_bandwidth c / 2)

unfoldable pub pf_channel_max : Channel → ℤ
unfolding pf_bandwidth
pf_channel_max c = pos (c.frequency + pf_bandwidth c / 2)

-- `minRadioCenterFreq`
unfoldable pub pf_min_radio_center_freq : Channel → ℤ
unfolding pf_channel_min pf_half_radio
pf_min_radio_center_freq c = add_int (pf_channel_min c) (pf_half_radio c)

-- The loop over the radios for one channel. A channel that fits none of them changes nothing.
unfoldable pub place_channel : Channel → List RadioConfig → List RadioConfig
unfolding pf_min_radio_center_freq pf_channel_max pf_half_radio
place_channel c [] = []
place_channel c (r ∷ rs) =
    let rest = place_channel c rs in
    if not r.enable
    then record { enable = true; freq = pf_min_radio_center_freq c } ∷ rs
    else if leb_ℤ (pf_channel_max c) (add_int r.freq (pf_half_radio c))
    then r ∷ rs
    else r ∷ rest

-- The loop over the channels.
unfoldable pub place_channels : List Channel → List RadioConfig → List RadioConfig
unfolding place_channel
place_channels [] radios = radios
place_channels (c ∷ cs) radios = place_channels cs (place_channel c radios)

-- `channelMin >= r.Freq-half && channelMax <= r.Freq+half`
unfoldable pub radio_covers : Channel → ℤ → Bool
unfolding pf_channel_min pf_channel_max pf_half_radio
radio_covers c f =
    leb_ℤ (sub_int f (pf_half_radio c)) (pf_channel_min c)
    && leb_ℤ (pf_channel_max c) (add_int f (pf_half_radio c))

-- The first radio that covers a channel, from number `i` on, and the first of all where none does.
unfoldable pub covering_radio : Channel → ℕ → List RadioConfig → ℕ
unfolding radio_covers
covering_radio c i [] = 0
covering_radio c i (r ∷ rs) =
    let rest = covering_radio c (suc i) rs in if radio_covers c r.freq then i else rest

abbrev pub radio_freq : List RadioConfig → ℕ → ℤ
radio_freq radios r = (get_or radios r (record { enable = false; freq = pos 0 })).freq

-- A channel of FSK modulation for the radio `r`.
fsk_assigned :
    Channel → ℕ → GatewayConfig → Option FskModulationConfig → Result ConfigError GatewayConfig
fsk_assigned c r gc none = err fsk_config_is_nil
fsk_assigned c r gc (some i) =
    if gc.fsk_channel_config.enable
    then err fsk_already_configured
    else ok (record gc {
      fsk_channel_config = record {
        enable = true;
        radio = r;
        if_freq = sub_from c.frequency (radio_freq gc.radios r);
        bandwidth = i.bandwidth;
        data_rate = i.bitrate;
        freq = c.frequency;
      };
    })

unfoldable pub multi_sf_config : Channel → ℕ → ℤ → MultiSfChannelConfig
multi_sf_config c r f = record {
  enable = true;
  radio = r;
  if_freq = sub_from c.frequency f;
  freq = c.frequency;
}

std_assigned : Channel → ℕ → GatewayConfig × ℕ → ℕ → Result ConfigError (GatewayConfig × ℕ)
unfolding pf_bandwidth
std_assigned c r (gc, n) sf =
    if gc.lora_std_channel_config.enable
    then err lora_std_already_configured
    else ok (
      record gc {
        lora_std_channel_config = record {
          enable = true;
          radio = r;
          if_freq = sub_from c.frequency (radio_freq gc.radios r);
          bandwidth = pf_bandwidth c;
          spread_factor = sf;
          freq = c.frequency;
        };
      },
      n,
    )

multi_sf_assigned : Channel → ℕ → GatewayConfig × ℕ → Result ConfigError (GatewayConfig × ℕ)
unfolding multi_sf_config
multi_sf_assigned c r (gc, n) =
    if leb channel_count n
    then err too_many_multi_sf_channels
    else ok (
      record gc {
        multi_sf_channels =
            set_at n (multi_sf_config c r (radio_freq gc.radios r)) gc.multi_sf_channels;
      },
      suc n,
    )

-- A channel of LoRa modulation: the standard channel if it has one spreading factor.
factors_assigned : Channel → ℕ → GatewayConfig × ℕ → List ℕ → Result ConfigError (GatewayConfig × ℕ)
unfolding std_assigned multi_sf_assigned
factors_assigned c r s (sf ∷ []) = std_assigned c r s sf
factors_assigned c r s [] = multi_sf_assigned c r s
factors_assigned c r s (sf ∷ tf ∷ sfs) = multi_sf_assigned c r s

lora_assigned :
    Channel
    → ℕ
    → GatewayConfig × ℕ
    → Option LoraModulationConfig
    → Result ConfigError (GatewayConfig × ℕ)
unfolding factors_assigned
lora_assigned c r s none = err lora_config_is_nil
lora_assigned c r s (some i) = factors_assigned c r s i.spreading_factors

assigned : Channel → ℕ → GatewayConfig × ℕ → Modulation → Result ConfigError (GatewayConfig × ℕ)
unfolding fsk_assigned lora_assigned
assigned c r (gc, n) fsk =
    fsk_assigned c r gc (get_fsk_config c.modulation_config) >>= λ gc'. ok (gc', n)
assigned c r s lora = lora_assigned c r s (get_lora_config c.modulation_config)
assigned c r s (other_modulation m) = err (invalid_modulation m)

-- The loop that assigns the channels. The number is `multiSFCounter`.
assign_channels : List Channel → GatewayConfig × ℕ → Result ConfigError (GatewayConfig × ℕ)
unfolding assigned covering_radio
assign_channels [] s = ok s
assign_channels (c ∷ cs) (gc, n) = do
  s ← assigned c (covering_radio c 0 gc.radios) (gc, n) c.modulation
  assign_channels cs s

abbrev pub no_channel : MultiSfChannelConfig
no_channel = record { enable = false; radio = 0; if_freq = pos 0; freq = 0 }

-- With the radios, and Go's zero values.
abbrev pub radios_only : List RadioConfig → GatewayConfig
radios_only radios = record {
  radios = radios;
  multi_sf_channels = fill channel_count [] no_channel;
  lora_std_channel_config = record {
    enable = false;
    radio = 0;
    if_freq = pos 0;
    bandwidth = 0;
    spread_factor = 0;
    freq = 0;
  };
  fsk_channel_config = record {
    enable = false;
    radio = 0;
    if_freq = pos 0;
    bandwidth = 0;
    data_rate = 0;
    freq = 0;
  };
}

abbrev pub unset_radios : List RadioConfig
unset_radios = fill radio_count [] (record { enable = false; freq = pos 0 })

-- `getGatewayConfig`, where `sort` is `sort.Sort` by the minimal centre frequency, which sorts in place.
unfoldable pub get_gateway_config :
    (List Channel → List Channel) → List Channel → Result ConfigError GatewayConfig
unfolding assign_channels
get_gateway_config sort channels = do
  last ←
      assign_channels (sort channels) (radios_only (place_channels (sort channels) unset_radios), 0)
  ok last.0
