-- ===== src/Basicstation/Backend.antt =====
-- internal/backend/basicstation/backend.go: what the backend does with a message of a station, and with a downlink,
-- a configuration or a command for one. `SendDownlinkFrame` holds the lock of the backend while it runs. Each function
-- returns its error, which a handler of a message only logs, the new state, and what it has sent, in order.
pub mod Commands
pub mod Messages
pub mod Transmitted
pub mod Recipients
use chirpstack_gateway_bridg.Prelude.{
  ltb, leb, ◌==◌, if◌then◌else◌, ltb→lt, lt→ltb, leb→le, ==_iff, Bool-cases, Option-cases, is_some,
  then-eq, else-eq, length, get_or, take, drop, length-append, take-append, drop-append, take_all,
  length-take, take-append-drop, All, All-append, set_at, set_from, fill, set_from-fill, Pointwise,
  Result, ok, err, ◌>>=◌, map_err, >>=-eq-ok, ok-injective, or_fail, or_fail-eq-ok, Result-cases,
  Bytes, AreBytes, codes, bytes_eq, bytes_eq_iff, put_u16_le, put_u32_be, from_be, u_be, Key,
  nat_key, bytes_key, beq_refl, lookup, insert, delete, lookup-insert, lookup-delete, ℕ, zero, suc,
  ◌+◌, ◌-◌, ◌*◌, ◌/◌, ◌%◌, ◌^◌, ◌≤◌, ◌<◌, ◌≡◌, refl, sym, ap, ◌∙◌, ◌≢◌, ◌↔◌, ◌⊎◌, inl, inr, Bool,
  true, false, not, ◌&&◌, ◌||◌, Option, none, some, List, [], ◌∷◌, ◌++◌, map, arith,
}
use chirpstack_gateway_bridg.Prelude.Int.{
  ℤ, pos, negsuc, negate, quotient, wrap, int64, mul_int64, is_zero_ℤ, int_sub, add_int,
  add_int-int_sub,
}
use chirpstack_gateway_bridg.Platform.{
  Modulation, lora, fsk, other_modulation, Platform, Json, ReadsBack, LoraModulationInfo,
  FskModulationInfo, ModulationInfo, no_modulation_info, lora_modulation_info, fsk_modulation_info,
  get_lora_info, get_fsk_info, Timing, immediately, delay, gps_epoch, other_timing, TimingInfo,
  no_timing_info, delay_timing_info, gps_epoch_timing_info, DownlinkTxInfo, DownlinkFrame,
  CrcStatus, no_crc, bad_crc, crc_ok, UplinkTxInfo, FineTimestamp, UplinkRxInfo, UplinkFrame,
  Location, GatewayStats, DownlinkTxAck,
}
use chirpstack_gateway_bridg.Basicstation.Gateways.{
  Gateway, Gateways, RegistryError, gateway_does_not_exist, get, set, remove,
}
use chirpstack_gateway_bridg.Basicstation.Structs.{
  BandModulation, lora_band, fsk_band, other_band, BandDataRate, Station, RadioMetaData,
  UplinkError, bad_data_rate, bad_timestamp, bad_fopts, bad_frm_payload, put_u64_be, put_u32_le,
  set_radio_meta_data_to_proto,
}
use chirpstack_gateway_bridg.Basicstation.Structs.Uplinks.{
  JoinRequest, UplinkDataFrame, UplinkProprietaryFrame, join_request_phy, join_request_to_proto,
  uplink_data_frame_to_proto, uplink_proprietary_frame_to_proto, downlink_transmitted_to_proto,
}
use chirpstack_gateway_bridg.Basicstation.Structs.Downlink.{
  DownlinkMessage, DownlinkError, tx_info_is_nil, slice_out_of_range, lora_info_missing,
  fsk_info_missing, no_data_rate_index, unexpected_modulation, unexpected_timing,
  timing_info_is_nil, bad_duration, downlink_frame_from_proto,
}
use chirpstack_gateway_bridg.Basicstation.Structs.RouterConfig.{
  Region, as923, au915, cn470, cn779, eu433, eu868, in865, kr920, us915, ru864, other_region,
  region_name, Band, ChanLoraStd, ChanMultiSf, Sx1301Conf, RouterConfig, RouterError,
  no_band_config, radio_error, no_multi_sf, no_lora_std, radios_of, multi_sf_entry, start_conf,
  sx1301_conf_of, base_config, get_router_config_old,
}

pub record StationBackend : Type 0 where
  pub diid_map : List (ℕ × Bytes)
  pub gateways : Gateways

-- `gw.RawPacketForwarderEvent`, and `gw.RawPacketForwarderCommand`
pub record RawPacket : Type 0 where
  pub gateway_id : Bytes
  pub raw_id : Bytes
  pub payload : Bytes

-- The two message types of a websocket that carry data.
pub data WebsocketKind : Type 0 where
  text_message binary_message : WebsocketKind

-- A message on a connection, or a value on one of the channels.
pub data StationOutput (w : Platform) : Type 0 where
  websocket_write : ℕ → WebsocketKind → Bytes → StationOutput w
  station_uplink : UplinkFrame w → StationOutput w
  station_tx_ack : DownlinkTxAck → StationOutput w
  station_stats : GatewayStats w → StationOutput w
  raw_event : RawPacket → StationOutput w

pub data StationError : Type 0 where
  no_random_token no_uuid marshal_json_error unmarshal_json_error write_error : StationError
  empty_payload bad_time : StationError
  downlink_error : DownlinkError → StationError
  uplink_error : UplinkError → StationError
  gateway_error : RegistryError → StationError
  router_error : RouterError → StationError

-- What stands around one call: the codecs, the clock, random draws, and the websocket.
pub record StationEnv {w : Platform} (s : Station w) : Type 0 where
  pub message_type : Bytes → Option Bytes
  pub is_version : Bytes → Bool
  pub unmarshal_uplink : Bytes → Option (UplinkDataFrame s)
  pub unmarshal_join_request : Bytes → Option (JoinRequest s)
  pub unmarshal_proprietary : Bytes → Option (UplinkProprietaryFrame s)
  -- The number of the downlink.
  pub unmarshal_transmitted : Bytes → Option ℕ
  pub downlink_json : Json DownlinkMessage
  pub router_json : Json RouterConfig
  pub now : w.Time
  pub uuid : Option Bytes
  -- Two random bytes.
  pub random_token : Option ℕ
  -- `conn.RemoteAddr().String()`, and whether `conn.WriteMessage` has no error.
  pub remote_addr : ℕ → Bytes
  pub write_ok : ℕ → Bytes → Bool

abbrev pub StationOutcome : Platform → Type 0
StationOutcome w = Result StationError Unit × StationBackend × List (StationOutput w)

module _ {w : Platform} {s : Station w} (env : StationEnv s) where
  -- `gw.conn.WriteMessage`, to the connection that was found. It is called without the lock of the registry, and reads
  -- nothing of the backend, so that any steps may come between the lookup and the write.
  write_found :
      WebsocketKind → Bytes → Gateway → Result {0, 0} StationError Unit × List (StationOutput w)
  write_found kind bytes g =
      if env.write_ok g.conn bytes
      then (ok tt, websocket_write g.conn kind bytes ∷ [])
      else (err write_error, [])

  -- `sendRawToGateway`, with what the lookup under the lock of the registry has returned.
  write_to :
      StationBackend → WebsocketKind → Bytes → Result RegistryError Gateway → StationOutcome w
  unfolding write_found
  write_to b kind bytes (err e) = (err (gateway_error e), b, [])
  write_to b kind bytes (ok g) = let (answer, sent) = write_found kind bytes g in (answer, b, sent)

  unfoldable pub send_raw_to_gateway :
      StationBackend → Bytes → WebsocketKind → Bytes → StationOutcome w
  unfolding write_to
  send_raw_to_gateway b gateway_id kind bytes = write_to b kind bytes (get b.gateways gateway_id)

  -- `sendToGateway`: the gateway is looked up before the value is written as JSON, and the lock is released in between.
  marshaled_to : StationBackend → Option Bytes → Result RegistryError Gateway → StationOutcome w
  unfolding write_to
  marshaled_to b m (err e) = (err (gateway_error e), b, [])
  marshaled_to b none (ok g) = (err marshal_json_error, b, [])
  marshaled_to b (some bytes) (ok g) = write_to b text_message bytes (ok g)

  unfoldable pub send_to_gateway : StationBackend → Bytes → Option Bytes → StationOutcome w
  unfolding marshaled_to
  send_to_gateway b gateway_id m = marshaled_to b m (get b.gateways gateway_id)
