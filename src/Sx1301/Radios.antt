-- ===== src/Sx1301/Radios.antt =====
-- internal/config/sx1301v1/sx1301v1.go: the centre frequencies of the two radios, and the radio of a channel.
-- Frequencies are `uint32`, with their wrap-around.
pub mod Cover
use chirpstack_gateway_bridg.Prelude.{
  leb, ◌==◌, if◌then◌else◌, Result, ok, err, ◌>>=◌, ℕ, suc, ◌+◌, ◌-◌, ◌*◌, ◌/◌, ◌%◌, ◌^◌, Bool,
  Option, none, some, ◌&&◌, List, [], ◌∷◌,
}
use chirpstack_gateway_bridg.Platform.{Modulation, lora, fsk}

-- The bandwidths are in kHz.
pub record LoraModulationConfig : Type 0 where
  pub bandwidth : ℕ
  pub spreading_factors : List ℕ

pub record FskModulationConfig : Type 0 where
  pub bandwidth : ℕ
  pub bitrate : ℕ

-- The `oneof` of the modulation parameters.
pub data ModulationConfig : Type 0 where
  no_modulation_config : ModulationConfig
  lora_modulation_config : LoraModulationConfig → ModulationConfig
  fsk_modulation_config : FskModulationConfig → ModulationConfig

-- `GetLoraModulationConfig` and `GetFskModulationConfig`
abbrev pub get_lora_config : ModulationConfig → Option LoraModulationConfig
get_lora_config (lora_modulation_config i) = some i
get_lora_config no_modulation_config = none
get_lora_config (fsk_modulation_config i) = none

abbrev pub get_fsk_config : ModulationConfig → Option FskModulationConfig
get_fsk_config (fsk_modulation_config i) = some i
get_fsk_config no_modulation_config = none
get_fsk_config (lora_modulation_config i) = none

-- `gw.ChannelConfiguration`, with the fields that are read.
pub record Channel : Type 0 where
  pub frequency : ℕ
  pub modulation : Modulation
  pub modulation_config : ModulationConfig

unfoldable pub bandwidth_of : Modulation → ModulationConfig → ℕ
bandwidth_of lora (lora_modulation_config i) = i.bandwidth * 1000 % 2 ^ 32
bandwidth_of fsk (fsk_modulation_config i) = i.bandwidth * 1000 % 2 ^ 32
bandwidth_of m i = 0

unfoldable pub channel_bandwidth : Channel → ℕ
unfolding bandwidth_of
channel_bandwidth c = bandwidth_of c.modulation c.modulation_config

-- `radioBandwidthPerChannelBandwidth`, with the default.
unfoldable pub radio_bandwidth : ℕ → ℕ
radio_bandwidth bw = if bw == 500000 then 1100000 else if bw == 250000 then 1000000 else 925000

unfoldable pub channel_min : Channel → ℕ
unfolding channel_bandwidth
channel_min c = (c.frequency + 2 ^ 32 - channel_bandwidth c / 2) % 2 ^ 32

unfoldable pub channel_max : Channel → ℕ
unfolding channel_bandwidth
channel_max c = (c.frequency + channel_bandwidth c / 2) % 2 ^ 32

unfoldable pub half_radio : Channel → ℕ
unfolding channel_bandwidth radio_bandwidth
half_radio c = radio_bandwidth (channel_bandwidth c) / 2

-- `minRadioCenterFreq`
unfoldable pub min_radio_center_freq : Channel → ℕ
unfolding channel_min half_radio
min_radio_center_freq c = (channel_min c + half_radio c) % 2 ^ 32

pub data RadioError : Type 0 where
  does_not_fit : ℕ → RadioError

-- A radio that the channel does not fit, before the others: the last radio ends the loop with an error.
abbrev pub place_next :
    Channel → ℕ → List ℕ → Result RadioError (List ℕ) → Result RadioError (List ℕ)
place_next c r [] rest = err (does_not_fit c.frequency)
place_next c r (s ∷ rs) (err e) = err e
place_next c r (s ∷ rs) (ok more) = ok (r ∷ more)

-- The loop over the radios for one channel.
unfoldable pub place : Channel → List ℕ → Result RadioError (List ℕ)
unfolding min_radio_center_freq channel_max half_radio
place c [] = ok []
place c (r ∷ rs) =
    let rest = place c rs in
    if r == 0
    then ok (min_radio_center_freq c ∷ rs)
    else if leb (channel_max c) ((r + half_radio c) % 2 ^ 32)
    then ok (r ∷ rs)
    else place_next c r rs rest

-- The loop over the channels.
unfoldable pub plan : List Channel → List ℕ → Result RadioError (List ℕ)
unfolding place
plan [] radios = ok radios
plan (c ∷ cs) radios = place c radios >>= λ next. plan cs next

-- `GetRadioFrequencies`, where `sort` is `sort.Sort` by the minimal centre frequency. There are two radios, and 0 is
-- one without a frequency.
unfoldable pub get_radio_frequencies :
    (List Channel → List Channel) → List Channel → Result RadioError (List ℕ)
unfolding plan
get_radio_frequencies sort channels = plan (sort channels) (0 ∷ 0 ∷ [])

unfoldable pub covers : Channel → ℕ → Bool
unfolding channel_min channel_max half_radio
covers c f =
    leb ((f + 2 ^ 32 - half_radio c) % 2 ^ 32) (channel_min c)
    && leb (channel_max c) ((f + half_radio c) % 2 ^ 32)

unfoldable pub radio_from : Channel → ℕ → List ℕ → Result RadioError ℕ
unfolding covers
radio_from c i [] = err (does_not_fit c.frequency)
radio_from c i (f ∷ fs) = let rest = radio_from c (suc i) fs in if covers c f then ok i else rest

-- `GetRadioForChannel`
unfoldable pub get_radio_for_channel : List ℕ → Channel → Result RadioError ℕ
unfolding radio_from
get_radio_for_channel radios c = radio_from c 0 radios
