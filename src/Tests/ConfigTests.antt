-- ===== src/Tests/ConfigTests.antt =====
-- The theorems on the configurations of concentrators, for three channels of EU868.

use chirpstack_gateway_bridg.Prelude.{
  if◌then◌else◌, length, fill, Pointwise, ok, codes, bytes_eq, nat_key, bytes_key, lookup, insert,
  ℕ, ◌≤◌, ◌≡◌, refl, true, false, none, some, [], ◌∷◌, map, arith,
}
use chirpstack_gateway_bridg.Prelude.Int.{pos, negsuc, int_sub}
use mathlib.Core.List.Permᴰ.{refl as permuted_refl}
use chirpstack_gateway_bridg.Sx1301.Radios.{
  Channel, channel_bandwidth, radio_bandwidth, min_radio_center_freq, get_radio_frequencies,
  get_radio_for_channel,
}
use chirpstack_gateway_bridg.Sx1301.Heard.{multi_sf_frequencies, single_sf_frequency}
use chirpstack_gateway_bridg.Basicstation.Structs.RouterConfig.{
  eu868, Band, ChanMultiSf, Sx1301Conf, RouterConfig, no_multi_sf, no_lora_std, multi_sf_entry,
  base_config, get_router_config_old,
}
use chirpstack_gateway_bridg.Basicstation.Structs.RouterConfig.Concentrator.{
  Concentrator, multi_sf_channel, fsk_channel, lora_std_channel, concentrator_radios, place_lora,
  place_configured, concentrator_conf, channels_of, get_router_config,
}
use chirpstack_gateway_bridg.Basicstation.Structs.RouterConfig.Entries.{IsTuned}
use chirpstack_gateway_bridg.Basicstation.Structs.RouterConfig.Tuned.{
  IsTunedFor, get_router_config_old-IsTuned, get_router_config-IsTuned,
}
use chirpstack_gateway_bridg.SemtechUdp.PfConfig.{
  MultiSfChannelConfig, GatewayConfig, channel_count, pf_bandwidth, pf_min_radio_center_freq,
  place_channels, covering_radio, radio_freq, multi_sf_config, no_channel, radios_only,
  get_gateway_config,
}
use chirpstack_gateway_bridg.SemtechUdp.PfConfig.Tuned.{
  pf_multi_sf, pf_lora_std, get_gateway_config-tuned,
}
use chirpstack_gateway_bridg.SemtechUdp.PfConfig.Merge.{
  text_field, other_field, object, ConfigFile, updates, merge_config,
}
use chirpstack_gateway_bridg.SemtechUdp.PfConfig.Merge.Fields.{
  IsMerged, gateway_field, merge_config-fields,
}
use chirpstack_gateway_bridg.SemtechUdp.Configuration.{
  GatewayConfiguration, Host, configuration_of, apply_gateway_configuration,
}
use chirpstack_gateway_bridg.SemtechUdp.Configuration.Versions.{
  LeavesVersion, apply_gateway_configuration-version,
}
use chirpstack_gateway_bridg.Tests.{constant_json, mac}
use chirpstack_gateway_bridg.Tests.RadioTests.{channels}
use chirpstack_gateway_bridg.Events.{copy_eui}
use chirpstack_gateway_bridg.SemtechUdp.PfConfig.SameTests.{IsPlannable}
use chirpstack_gateway_bridg.SemtechUdp.PfConfig.Agreement.{
  radio_of, get_gateway_config-get_radio_frequencies,
}
use chirpstack_gateway_bridg.Decimal.{format_uint}
use chirpstack_gateway_bridg.SemtechUdp.Backend.{PfConfiguration}

abbrev multi_sf : ℕ → ℕ → ChanMultiSf
multi_sf r f = record { enable = true; radio = r; if_freq = int_sub f 868500000 }

abbrev three_channels : Sx1301Conf
three_channels = record {
  radios = (true, 868500000) ∷ (false, 0) ∷ [];
  chan_fsk = false;
  chan_lora_std = no_lora_std;
  chan_multi_sf =
      multi_sf 0 868100000 ∷ multi_sf 0 868300000 ∷ multi_sf 0 868500000 ∷ fill 5 [] no_multi_sf;
}

abbrev no_rates : Band
no_rates = record { get_data_rate = λ i. none; uplink_index = λ d. none }

abbrev router : RouterConfig
router = record {
  message_type = codes "router_config";
  net_id = [];
  join_eui = [];
  region = codes "EU863";
  hw_spec = codes "sx1301/1";
  freq_range = (863000000, 870000000);
  drs = fill 16 [] (negsuc 0, pos 0, pos 0);
  sx1301_conf = three_channels ∷ [];
}

get_router_config_old_example :
    (conf : Sx1301Conf) × (router.sx1301_conf ≡ conf ∷ []) × IsTuned channels conf
unfolding get_router_config_old format_uint get_radio_frequencies get_radio_for_channel
    channel_bandwidth min_radio_center_freq multi_sf_entry
get_router_config_old_example =
    get_router_config_old-IsTuned (λ cs. cs) eu868 (some no_rates) [] [] (863000000, 870000000)
      channels router refl

abbrev concentrator : Concentrator
concentrator = record {
  multi_sf_frequencies = 868100000 ∷ 868300000 ∷ 868500000 ∷ [];
  lora_std_frequency = 868300000;
  lora_std_bandwidth = 250000;
  lora_std_spreading_factor = 7;
  fsk_frequency = 0;
}

abbrev standard_router : RouterConfig
standard_router = record router {
  sx1301_conf =
      record three_channels {
        chan_lora_std = record {
          enable = true;
          radio = 0;
          if_freq = int_sub 868300000 868500000;
          bandwidth = 250000;
          spreading_factor = 7;
        };
      }
      ∷ [];
}

get_router_config_example : Pointwise IsTunedFor (concentrator ∷ []) standard_router.sx1301_conf
unfolding get_router_config base_config format_uint get_radio_frequencies get_radio_for_channel
    channel_bandwidth min_radio_center_freq channels_of multi_sf_channel fsk_channel
    lora_std_channel concentrator_conf concentrator_radios place_configured place_lora
get_router_config_example =
    get_router_config-IsTuned (λ cs. cs) (λ cs. permuted_refl cs) eu868 (some no_rates) [] []
      (863000000, 870000000) (concentrator ∷ []) standard_router refl

abbrev pf_channel : ℕ → MultiSfChannelConfig
pf_channel f = record { enable = true; radio = 0; if_freq = int_sub f 868500000; freq = f }

abbrev gateway_config : GatewayConfig
gateway_config =
    record (radios_only (
      record { enable = true; freq = pos 868500000 }
      ∷ record { enable = false; freq = pos 0 }
      ∷ [])) {
        multi_sf_channels =
            pf_channel 868100000
            ∷ pf_channel 868300000
            ∷ pf_channel 868500000
            ∷ fill 5 [] no_channel;
      }

get_gateway_config_example :
    (map (pf_multi_sf (radio_freq gateway_config.radios)) gateway_config.multi_sf_channels
      ≡ fill channel_count (multi_sf_frequencies channels) none)
    × (length (multi_sf_frequencies channels) ≤ channel_count)
    × (pf_lora_std (radio_freq gateway_config.radios) gateway_config.lora_std_channel_config
        ≡ single_sf_frequency channels none)
unfolding get_gateway_config pf_min_radio_center_freq covering_radio place_channels multi_sf_config
    pf_bandwidth radio_bandwidth
get_gateway_config_example = get_gateway_config-tuned (λ cs. cs) channels gateway_config refl

-- A file with the keys of the new configuration, and fields of its own.
abbrev base_file : ConfigFile
base_file = record {
  sx1301_conf =
      map (λ u. (u.0, object ((codes "type", other_field []) ∷ []))) (updates gateway_config);
  gateway_conf = some ((codes "server", text_field []) ∷ []);
}

abbrev merged_file : ConfigFile
merged_file = record {
  sx1301_conf =
      map (λ u. (u.0, object ((codes "type", other_field []) ∷ u.1))) (updates gateway_config);
  gateway_conf = some ((codes "server", text_field []) ∷ (codes "gateway_ID", text_field mac) ∷ []);
}

merge_config_example :
    IsMerged gateway_config base_file merged_file (codes "radio_0") (codes "freq")
    × (gateway_field merged_file (codes "freq") ≡ (
        if bytes_eq (codes "gateway_ID") (codes "freq")
        then some (text_field mac)
        else gateway_field base_file (codes "freq")))
unfolding merge_config format_uint insert lookup
merge_config_example =
    merge_config-fields mac base_file merged_file gateway_config (codes "radio_0") (codes "freq")
      refl

abbrev pf_configuration : PfConfiguration
pf_configuration = record {
  gateway_id = mac;
  base_file = [];
  output_file = codes "out";
  restart_command = codes "restart";
  current_version = [];
}

abbrev host : Host
host = record {
  eui_text = λ id. id;
  sort = λ cs. cs;
  read_file = λ path. some [];
  remove_comments = λ bs. bs;
  config_json = constant_json base_file;
  write_ok = λ path bytes. true;
  fields = λ command. command ∷ [];
  run_ok = λ command args. true;
}

abbrev configuration : GatewayConfiguration
configuration = record { gateway_id = mac; version = codes "2"; channels = channels }

apply_gateway_configuration_example :
    LeavesVersion host
      (pf_configuration ∷ [])
      pf_configuration
      configuration
      (apply_gateway_configuration host (pf_configuration ∷ []) configuration)
unfolding configuration_of copy_eui
apply_gateway_configuration_example =
    apply_gateway_configuration-version host (pf_configuration ∷ []) pf_configuration configuration
      refl

get_gateway_config-get_radio_frequencies_example :
    (gateway_config.radios ≡ map radio_of (868500000 ∷ 0 ∷ []))
    × ((c : Channel) (r : ℕ)
        → IsPlannable c
        → get_radio_for_channel (868500000 ∷ 0 ∷ []) c ≡ ok r
        → covering_radio c 0 gateway_config.radios ≡ r)
unfolding get_gateway_config pf_min_radio_center_freq place_channels multi_sf_config pf_bandwidth
    radio_bandwidth get_radio_frequencies channel_bandwidth min_radio_center_freq covering_radio
get_gateway_config-get_radio_frequencies_example =
    get_gateway_config-get_radio_frequencies (λ cs. cs) channels (868500000 ∷ 0 ∷ []) gateway_config
      (
        ((omega arith, omega arith, omega arith), omega arith),
        (
          ((omega arith, omega arith, omega arith), omega arith),
          (((omega arith, omega arith, omega arith), omega arith), tt),
        ),
      )
      refl refl
