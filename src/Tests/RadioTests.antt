-- ===== src/Tests/RadioTests.antt =====
-- The theorem on radios, for the three channels that all EU868 gateways have.
use chirpstack_gateway_bridg.Prelude.{All, ok, ℕ, ◌≡◌, refl, List, [], ◌∷◌, arith}
use chirpstack_gateway_bridg.Platform.{lora}
use chirpstack_gateway_bridg.Sx1301.Radios.{
  lora_modulation_config, Channel, channel_bandwidth, min_radio_center_freq, get_radio_frequencies,
  get_radio_for_channel,
}
use chirpstack_gateway_bridg.Sx1301.Radios.Cover.{get_radio_for_channel-get_radio_frequencies}

abbrev pub channel : ℕ → Channel
channel f = record {
  frequency = f;
  modulation = lora;
  modulation_config =
      lora_modulation_config
        (record { bandwidth = 125; spreading_factors = 7 ∷ 8 ∷ 9 ∷ 10 ∷ 11 ∷ 12 ∷ [] });
}

abbrev pub channels : List Channel
channels = channel 868100000 ∷ channel 868300000 ∷ channel 868500000 ∷ []

get_radio_for_channel-get_radio_frequencies_example :
    All (λ c. (k : ℕ) × (get_radio_for_channel (868500000 ∷ 0 ∷ []) c ≡ ok k)) channels
unfolding get_radio_frequencies channel_bandwidth min_radio_center_freq
get_radio_for_channel-get_radio_frequencies_example =
    get_radio_for_channel-get_radio_frequencies (λ cs. cs) channels (868500000 ∷ 0 ∷ [])
      (omega arith, (omega arith, (omega arith, tt))) (λ P. (λ h. h, λ h. h))
      (
        (omega arith, omega arith, omega arith),
        ((omega arith, omega arith, omega arith), ((omega arith, omega arith, omega arith), tt)),
      )
      refl
