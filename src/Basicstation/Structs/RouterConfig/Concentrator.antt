-- ===== src/Basicstation/Structs/RouterConfig/Concentrator.antt =====
-- `GetRouterConfig` of router_config.go, from the concentrators of the bridge's own configuration
-- (internal/config/config.go).

use chirpstack_gateway_bridg.Prelude.{
  ◌==◌, if◌then◌else◌, length, get_or, set_at, fill, Result, ok, ◌>>=◌, map_err, or_fail, Bytes,
  nat_key, bytes_key, ℕ, suc, ◌*◌, ◌/◌, ◌%◌, ◌^◌, Bool, true, false, not, Option, none, some, List,
  [], ◌∷◌, ◌++◌, map,
}
use chirpstack_gateway_bridg.Prelude.Int.{int_sub}
use chirpstack_gateway_bridg.Platform.{Modulation, lora, fsk, other_modulation}
use chirpstack_gateway_bridg.Sx1301.Radios.{
  LoraModulationConfig, lora_modulation_config, fsk_modulation_config, get_lora_config, Channel,
  get_radio_frequencies, get_radio_for_channel,
}
use chirpstack_gateway_bridg.Basicstation.Structs.RouterConfig.{
  Region, Band, Sx1301Conf, RouterConfig, RouterError, no_band_config, radio_error, no_lora_std,
  no_multi_sf, base_config,
}

-- `BasicStationConcentrator`
pub record Concentrator : Type 0 where
  pub multi_sf_frequencies : List ℕ
  pub lora_std_frequency : ℕ
  pub lora_std_bandwidth : ℕ
  pub lora_std_spreading_factor : ℕ
  pub fsk_frequency : ℕ

unfoldable pub multi_sf_channel : ℕ → Channel
multi_sf_channel f = record {
  frequency = f;
  modulation = lora;
  modulation_config =
      lora_modulation_config
        (record { bandwidth = 125; spreading_factors = 7 ∷ 8 ∷ 9 ∷ 10 ∷ 11 ∷ 12 ∷ [] });
}

unfoldable pub fsk_channel : ℕ → List Channel
fsk_channel f =
    if f == 0
    then []
    else record {
      frequency = f;
      modulation = fsk;
      modulation_config = fsk_modulation_config (record { bandwidth = 125; bitrate = 50000 });
    }
      ∷ []

unfoldable pub lora_std_channel : Concentrator → List Channel
lora_std_channel c =
    if c.lora_std_frequency == 0
    then []
    else record {
      frequency = c.lora_std_frequency;
      modulation = lora;
      modulation_config = lora_modulation_config (record {
        bandwidth = c.lora_std_bandwidth / 1000;
        spreading_factors = c.lora_std_spreading_factor ∷ [];
      });
    }
      ∷ []

unfoldable pub channels_of : Concentrator → List Channel
unfolding multi_sf_channel fsk_channel lora_std_channel
channels_of c =
    map multi_sf_channel c.multi_sf_frequencies
    ++ (fsk_channel c.fsk_frequency ++ lora_std_channel c)

-- The two radios, each enabled if it has a frequency.
unfoldable pub concentrator_radios : List ℕ → List (Bool × ℕ)
concentrator_radios [] = []
concentrator_radios (f ∷ fs) = (not (f == 0), f) ∷ concentrator_radios fs

-- A LoRa channel: one with a single spreading factor is the standard channel, and any other is the multi-SF channel of
-- the counter, where there is such a field.
unfoldable pub place_lora : Channel → ℕ → ℕ → Sx1301Conf → ℕ → LoraModulationConfig → Sx1301Conf × ℕ
place_lora c r center conf i m =
    if length m.spreading_factors == 1
    then (
      record conf {
        chan_lora_std = record {
          enable = true;
          radio = r;
          if_freq = int_sub c.frequency center;
          bandwidth = m.bandwidth * 1000 % 2 ^ 32;
          spreading_factor = get_or m.spreading_factors 0 0;
        };
      },
      i,
    )
    else (
      record conf {
        chan_multi_sf =
            set_at i (record { enable = true; radio = r; if_freq = int_sub c.frequency center })
              conf.chan_multi_sf;
      },
      suc i,
    )

unfoldable pub place_parameters :
    Channel → ℕ → ℕ → Sx1301Conf × ℕ → Option LoraModulationConfig → Sx1301Conf × ℕ
unfolding place_lora
place_parameters c r center (conf, i) none = (conf, i)
place_parameters c r center (conf, i) (some m) = place_lora c r center conf i m

unfoldable pub place_modulation : Channel → ℕ → ℕ → Sx1301Conf × ℕ → Modulation → Sx1301Conf × ℕ
unfolding place_parameters
place_modulation c r center (conf, i) lora =
    place_parameters c r center (conf, i) (get_lora_config c.modulation_config)
place_modulation c r center (conf, i) fsk = (record conf { chan_fsk = true }, i)
place_modulation c r center (conf, i) (other_modulation m) = (conf, i)

unfoldable pub place_configured :
    List ℕ → Sx1301Conf × ℕ → List Channel → Result RouterError (Sx1301Conf × ℕ)
unfolding place_modulation
place_configured radios s [] = ok s
place_configured radios s (c ∷ cs) = map_err radio_error (get_radio_for_channel radios c) >>= λ r.
    place_configured radios (place_modulation c r (get_or radios r 0) s c.modulation) cs

-- One concentrator. `GetRadioFrequencies` sorts the list of the channels in place.
unfoldable pub concentrator_conf :
    (List Channel → List Channel) → List Channel → Result RouterError Sx1301Conf
unfolding place_configured concentrator_radios
concentrator_conf sort channels =
    map_err radio_error (get_radio_frequencies sort channels) >>= λ radios.
    place_configured radios
      (
        record {
          radios = concentrator_radios radios;
          chan_fsk = false;
          chan_lora_std = no_lora_std;
          chan_multi_sf = fill 8 [] no_multi_sf;
        },
        0,
      )
      (sort channels)
    >>= λ last. ok last.0

-- The loop over the concentrators, which ends at the first error.
unfoldable pub confs_of :
    (List Channel → List Channel) → List Concentrator → Result RouterError (List Sx1301Conf)
unfolding channels_of concentrator_conf
confs_of sort [] = ok []
confs_of sort (c ∷ cs) = do
  conf ← concentrator_conf sort (channels_of c)
  rest ← confs_of sort cs
  ok (conf ∷ rest)

-- `GetRouterConfig`
unfoldable pub get_router_config :
    (List Channel → List Channel)
    → Region
    → Option Band
    → List Bytes
    → List (Bytes × Bytes)
    → ℕ × ℕ
    → List Concentrator
    → Result RouterError RouterConfig
unfolding confs_of
get_router_config sort region band net_ids join_euis range concentrators = do
  b ← or_fail no_band_config band
  confs ← confs_of sort concentrators
  ok (base_config region net_ids join_euis range b (length concentrators) confs)
