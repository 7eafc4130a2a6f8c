-- ===== src/SemtechUdp/Configuration.antt =====
-- `ApplyConfiguration` of internal/backend/semtechudp/backend.go, with `loadConfigFile` and `invokePFRestart` of
-- pf_config.go. The files, the commands and the text of identifiers are parameters.
pub mod Versions
use chirpstack_gateway_bridg.Prelude.{
  ltb, leb, ◌==◌, if◌then◌else◌, ltb→lt, lt→ltb, leb→le, ==_iff, Bool-cases, Option-cases, is_some,
  then-eq, else-eq, length, get_or, take, drop, length-append, take-append, drop-append, take_all,
  length-take, take-append-drop, All, All-append, set_at, set_from, fill, set_from-fill, Pointwise,
  Result, ok, err, ◌>>=◌, map_err, >>=-eq-ok, ok-injective, or_fail, or_fail-eq-ok, Result-cases,
  guard-eq-ok, Bytes, AreBytes, codes, bytes_eq, bytes_eq_iff, put_u16_le, put_u32_be, from_be,
  u_be, Key, nat_key, bytes_key, beq_refl, lookup, insert, delete, lookup-insert, lookup-delete, ℕ,
  zero, suc, ◌+◌, ◌-◌, ◌*◌, ◌/◌, ◌%◌, ◌^◌, ◌≤◌, ◌<◌, ◌≡◌, refl, sym, ap, ◌∙◌, ◌≢◌, ◌↔◌, ◌⊎◌, inl,
  inr, Bool, true, false, not, ◌&&◌, ◌||◌, Option, none, some, List, [], ◌∷◌, ◌++◌, map, arith,
}
use chirpstack_gateway_bridg.Platform.{
  Modulation, lora, fsk, other_modulation, Platform, Json, ReadsBack, LoraModulationInfo,
  FskModulationInfo, ModulationInfo, no_modulation_info, lora_modulation_info, fsk_modulation_info,
  get_lora_info, get_fsk_info, Timing, immediately, delay, gps_epoch, other_timing, TimingInfo,
  no_timing_info, delay_timing_info, gps_epoch_timing_info, DownlinkTxInfo, DownlinkFrame,
  CrcStatus, no_crc, bad_crc, crc_ok, UplinkTxInfo, FineTimestamp, UplinkRxInfo, UplinkFrame,
  Location, GatewayStats, DownlinkTxAck,
}
use chirpstack_gateway_bridg.Events.{Subscribe, copy_eui}
use chirpstack_gateway_bridg.Sx1301.Radios.{
  LoraModulationConfig, FskModulationConfig, ModulationConfig, no_modulation_config,
  lora_modulation_config, fsk_modulation_config, get_lora_config, get_fsk_config, Channel,
  channel_bandwidth, radio_bandwidth, min_radio_center_freq, RadioError, does_not_fit,
  get_radio_frequencies, get_radio_for_channel,
}
use chirpstack_gateway_bridg.SemtechUdp.Backend.{
  UdpPacket, PfConfiguration, Backend, Output, udp_send, downlink_tx_ack, gateway_stats,
  uplink_frame, subscribe_event, BackendError, packet_error, registry_error, convert_error,
  stats_error, frame_error, unknown_packet_type, no_random_bytes, Env, Outcome, downlink_id_of,
  no_error, ack_error, gateway_id_of, config_version_of, handle_pull_data, handle_tx_ack,
  handle_uplink_frames, pushed_stats, handle_push_data, dispatch, handle_packet, downlink_token,
  send_downlink_frame,
}
use chirpstack_gateway_bridg.SemtechUdp.PfConfig.{
  RadioConfig, MultiSfChannelConfig, LoraStdChannelConfig, FskChannelConfig, GatewayConfig,
  ConfigError, fsk_config_is_nil, fsk_already_configured, lora_config_is_nil,
  lora_std_already_configured, too_many_multi_sf_channels, invalid_modulation, radio_count,
  channel_count, pf_bandwidth, pf_min_radio_center_freq, place_channels, covering_radio, radio_freq,
  multi_sf_config, no_channel, radios_only, unset_radios, get_gateway_config,
}
use chirpstack_gateway_bridg.SemtechUdp.PfConfig.Merge.{
  Field, bool_field, int_field, text_field, other_field, Object, Section, object, not_object,
  ConfigFile, MergeError, not_of_type_map, assignment_to_nil_map, updates, merge_config,
}

-- `gw.GatewayConfiguration`
pub record GatewayConfiguration : Type 0 where
  pub gateway_id : Bytes
  pub version : Bytes
  pub channels : List Channel

-- What stands around the call: the text of an identifier, the sort, files, comments in JSON, `encoding/json`,
-- `strings.Fields`, and whether a command ends without an error.
pub record Host : Type 0 where
  pub eui_text : Bytes → Bytes
  pub sort : List Channel → List Channel
  pub read_file : Bytes → Option Bytes
  pub remove_comments : Bytes → Bytes
  pub config_json : Json ConfigFile
  pub write_ok : Bytes → Bytes → Bool
  pub fields : Bytes → List Bytes
  pub run_ok : Bytes → List Bytes → Bool

pub data ApplyError : Type 0 where
  config_error : ConfigError → ApplyError
  merge_error : MergeError → ApplyError
  read_file_error unmarshal_config_error marshal_config_error : ApplyError
  write_file_error no_restart_command execute_command_error : ApplyError

-- A call that has no result but its error.
abbrev pub Done : Type 0
Done = Unit

-- The calls of `ioutil.WriteFile` and of `exec.Command` that are made, whether or not they end without an error.
pub data HostEffect : Type 0 where
  writes_file : Bytes → Bytes → HostEffect
  runs_command : Bytes → List Bytes → HostEffect

abbrev pub ApplyOutcome : Type 0
ApplyOutcome = Result ApplyError Done × List PfConfiguration × List HostEffect

-- The last configuration of the gateway.
unfoldable pub configuration_of :
    Bytes → List PfConfiguration → Option PfConfiguration → Option PfConfiguration
configuration_of id [] found = found
configuration_of id (c ∷ cs) found =
    configuration_of id cs (if bytes_eq c.gateway_id id then some c else found)

-- The loop that stores the version.
unfoldable pub set_version : Bytes → Bytes → List PfConfiguration → List PfConfiguration
set_version id version [] = []
set_version id version (c ∷ cs) =
    (if bytes_eq c.gateway_id id then record c { current_version = version } else c)
    ∷ set_version id version cs

module _ (host : Host) where
  -- `loadConfigFile`
  unfoldable pub load_config_file : Bytes → Result ApplyError ConfigFile
  load_config_file path = do
    bytes ← or_fail read_file_error (host.read_file path)
    or_fail unmarshal_config_error (host.config_json.unmarshal (host.remove_comments bytes))

  -- The text of the new file.
  unfoldable pub new_config_file : PfConfiguration → List Channel → Result ApplyError Bytes
  unfolding load_config_file
  new_config_file pf channels = do
    gc ← map_err config_error (get_gateway_config host.sort channels)
    base ← load_config_file pf.base_file
    merged ← map_err merge_error (merge_config (host.eui_text pf.gateway_id) base gc)
    or_fail marshal_config_error (host.config_json.marshal merged)

  -- `invokePFRestart`
  restart_parts : List Bytes → Result ApplyError Done × List HostEffect
  restart_parts [] = (err no_restart_command, [])
  restart_parts (command ∷ args) = (
    if host.run_ok command args then ok tt else err execute_command_error,
    runs_command command args ∷ [],
  )

  unfoldable pub invoke_pf_restart : Bytes → Result ApplyError Done × List HostEffect
  unfolding restart_parts
  invoke_pf_restart command = restart_parts (host.fields command)

  -- The version is stored when the command has ended without an error.
  version_stored :
      List PfConfiguration
      → PfConfiguration
      → Bytes
      → Result ApplyError Done
      → Result ApplyError Done × List PfConfiguration
  version_stored cs pf version (err e) = (err e, cs)
  version_stored cs pf version (ok u) = (ok tt, set_version pf.gateway_id version cs)

  -- The command is run after the file is written.
  restarted :
      List PfConfiguration
      → PfConfiguration
      → Bytes
      → Bytes
      → Result ApplyError Done × List HostEffect
      → ApplyOutcome
  unfolding version_stored
  restarted cs pf version bytes (answer, ran) =
      let (answer', cs') = version_stored cs pf version answer in
      (answer', cs', writes_file pf.output_file bytes ∷ ran)

  written : List PfConfiguration → PfConfiguration → Bytes → Result ApplyError Bytes → ApplyOutcome
  unfolding restarted
  written cs pf version (err e) = (err e, cs, [])
  written cs pf version (ok bytes) =
      if host.write_ok pf.output_file bytes
      then restarted cs pf version bytes (invoke_pf_restart pf.restart_command)
      else (err write_file_error, cs, writes_file pf.output_file bytes ∷ [])

  apply_to : List PfConfiguration → GatewayConfiguration → Option PfConfiguration → ApplyOutcome
  unfolding written
  apply_to cs config none = (ok tt, cs, [])
  apply_to cs config (some pf) = written cs pf config.version (new_config_file pf config.channels)

  -- `ApplyConfiguration`: a gateway without a configuration of its packet-forwarder is left alone.
  unfoldable pub apply_gateway_configuration :
      List PfConfiguration → GatewayConfiguration → ApplyOutcome
  unfolding apply_to configuration_of set_version
  apply_gateway_configuration cs config =
      apply_to cs config (configuration_of (copy_eui config.gateway_id) cs none)
