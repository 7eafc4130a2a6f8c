-- ===== src/Basicstation/Backend/Messages.antt =====
-- The handlers of the messages of a station in internal/backend/basicstation/backend.go, and the body of the loop of
-- `handleGateway` with the message types of structs/msg_type.go.
pub mod State
use chirpstack_gateway_bridg.Prelude.{
  if◌then◌else◌, Result, ok, err, Bytes, codes, bytes_eq, nat_key, bytes_key, lookup, ℕ, ◌%◌,
  Option, none, some, [], ◌∷◌,
}
use chirpstack_gateway_bridg.Platform.{Platform, UplinkFrame}
use chirpstack_gateway_bridg.Basicstation.Gateways.{Gateway, RegistryError, get}
use chirpstack_gateway_bridg.Basicstation.Structs.{Station, UplinkError}
use chirpstack_gateway_bridg.Basicstation.Structs.Uplinks.{
  JoinRequest, UplinkDataFrame, UplinkProprietaryFrame, join_request_to_proto,
  uplink_data_frame_to_proto, uplink_proprietary_frame_to_proto, downlink_transmitted_to_proto,
}
use chirpstack_gateway_bridg.Basicstation.Structs.RouterConfig.{RouterConfig}
use chirpstack_gateway_bridg.Basicstation.Backend.{
  StationBackend, WebsocketKind, text_message, binary_message, station_uplink, station_tx_ack,
  station_stats, raw_event, no_uuid, unmarshal_json_error, bad_time, uplink_error, gateway_error,
  StationEnv, StationOutcome, send_to_gateway,
}

-- The message types that the loop handles.
abbrev pub version_message : Bytes
version_message = codes "version"

abbrev pub join_request_message : Bytes
join_request_message = codes "jreq"

abbrev pub uplink_data_frame_message : Bytes
uplink_data_frame_message = codes "updf"

abbrev pub proprietary_data_frame_message : Bytes
proprietary_data_frame_message = codes "propdf"

abbrev pub downlink_transmitted_message : Bytes
downlink_transmitted_message = codes "dntxed"

module _ {w : Platform} {s : Station w} (env : StationEnv s) where
  -- The last part of the handlers of the three uplinks, which gives the frame an identifier.
  identified : StationBackend → UplinkFrame w → Option Bytes → StationOutcome w
  identified b frame none = (err no_uuid, b, [])
  identified b frame (some id) = (
    ok tt,
    b,
    station_uplink (record frame { rx_info = record frame.rx_info { uplink_id = id } }) ∷ [],
  )

  uplink_converted : StationBackend → Result UplinkError (UplinkFrame w) → StationOutcome w
  unfolding identified
  uplink_converted b (err e) = (err (uplink_error e), b, [])
  uplink_converted b (ok frame) = identified b frame env.uuid

  -- `handleJoinRequest`
  unfoldable pub handle_join_request : StationBackend → Bytes → JoinRequest s → StationOutcome w
  unfolding uplink_converted
  handle_join_request b id v = uplink_converted b (join_request_to_proto s id v)

  -- `handleProprietaryDataFrame`
  unfoldable pub handle_proprietary_data_frame :
      StationBackend → Bytes → UplinkProprietaryFrame s → StationOutcome w
  unfolding uplink_converted
  handle_proprietary_data_frame b id v =
      uplink_converted b (uplink_proprietary_frame_to_proto s id v)

  -- `handleUplinkDataFrame`
  unfoldable pub handle_uplink_data_frame :
      StationBackend → Bytes → UplinkDataFrame s → StationOutcome w
  unfolding uplink_converted
  handle_uplink_data_frame b id v = uplink_converted b (uplink_data_frame_to_proto s id v)

  -- `b.diidMap[uint16(v.DIID)]`: a missing number gives nil.
  unfoldable pub downlink_of : StationBackend → ℕ → Bytes
  downlink_of b diid = elim (lookup (diid % 65536) b.diid_map) [ none ↦ [] | some id ↦ id ]

  -- `handleDownlinkTransmittedMessage`
  unfoldable pub handle_downlink_transmitted : StationBackend → Bytes → ℕ → StationOutcome w
  unfolding downlink_of
  handle_downlink_transmitted b id diid = (
    ok tt,
    b,
    station_tx_ack
          (record (downlink_transmitted_to_proto id diid) { downlink_id = downlink_of b diid })
        ∷ [],
  )

  -- `handleRawPacketForwarderEvent`
  raw_identified : StationBackend → Bytes → Bytes → Option Bytes → StationOutcome w
  raw_identified b id pl none = (err no_uuid, b, [])
  raw_identified b id pl (some raw) =
      (ok tt, b, raw_event (record { gateway_id = id; raw_id = raw; payload = pl }) ∷ [])

  unfoldable pub handle_raw_event : StationBackend → Bytes → Bytes → StationOutcome w
  unfolding raw_identified
  handle_raw_event b id pl = raw_identified b id pl env.uuid

  -- The statistics of a gateway without a configuration of the bridge's own.
  version_stats : StationBackend → Bytes → Gateway → w.Timestamp → StationOutcome w
  version_stats b id g ts = (
    ok tt,
    b,
    station_stats (record {
      gateway_id = id;
      ip = env.remote_addr g.conn;
      time = ts;
      location = none;
      config_version = g.config_version;
      rx_packets_received = 0;
      rx_packets_received_ok = 0;
      tx_packets_received = 0;
      tx_packets_emitted = 0;
      stats_id = [];
    })
        ∷ [],
  )

  version_of :
      StationBackend
      → Bytes
      → Option RouterConfig
      → Result RegistryError Gateway
      → Option w.Timestamp
      → StationOutcome w
  unfolding version_stats
  version_of b id config (err e) ts = (err (gateway_error e), b, [])
  version_of b id config (ok g) none = (err bad_time, b, [])
  version_of b id none (ok g) (some ts) = version_stats b id g ts
  version_of b id (some c) (ok g) (some ts) = send_to_gateway env b id (env.router_json.marshal c)

  -- `handleVersion`, where `config` is `b.routerConfig`.
  unfoldable pub handle_version : StationBackend → Option RouterConfig → Bytes → StationOutcome w
  unfolding version_of
  handle_version b config id =
      version_of b id config (get b.gateways id) (w.timestamp_proto env.now)

  unfoldable pub decoded :
      {A : Type 0} → StationBackend → Option A → (A → StationOutcome w) → StationOutcome w
  decoded b none handler = (err unmarshal_json_error, b, [])
  decoded b (some v) handler = handler v

  -- The `switch` on the type of a message.
  unfoldable pub handle_text :
      StationBackend → Option RouterConfig → Bytes → Bytes → Option Bytes → StationOutcome w
  unfolding decoded
  handle_text b config id msg none = (err unmarshal_json_error, b, [])
  handle_text b config id msg (some kind) =
      if bytes_eq kind version_message
      then (if env.is_version msg
          then handle_version b config id
          else (err unmarshal_json_error, b, []))
      else if bytes_eq kind uplink_data_frame_message
      then decoded b (env.unmarshal_uplink msg) (handle_uplink_data_frame b id)
      else if bytes_eq kind join_request_message
      then decoded b (env.unmarshal_join_request msg) (handle_join_request b id)
      else if bytes_eq kind proprietary_data_frame_message
      then decoded b (env.unmarshal_proprietary msg) (handle_proprietary_data_frame b id)
      else if bytes_eq kind downlink_transmitted_message
      then decoded b (env.unmarshal_transmitted msg) (handle_downlink_transmitted b id)
      else handle_raw_event b id msg

  -- One round of the loop.
  unfoldable pub handle_message :
      StationBackend → Option RouterConfig → Bytes → WebsocketKind → Bytes → StationOutcome w
  unfolding handle_text
  handle_message b config id binary_message msg = handle_raw_event b id msg
  handle_message b config id text_message msg = handle_text b config id msg (env.message_type msg)
