-- ===== src/Basicstation/Backend/Commands.antt =====
-- `SendDownlinkFrame`, `ApplyConfiguration` and `RawPacketForwarderCommand` of
-- internal/backend/basicstation/backend.go.
use chirpstack_gateway_bridg.Prelude.{
  ◌==◌, if◌then◌else◌, Result, ok, err, or_fail, Bytes, nat_key, bytes_key, insert, ℕ, ◌%◌, Option,
  List, [], ◌∷◌,
}
use chirpstack_gateway_bridg.Platform.{Platform, DownlinkFrame}
use chirpstack_gateway_bridg.Events.{copy_eui}
use chirpstack_gateway_bridg.Sx1301.Radios.{Channel}
use chirpstack_gateway_bridg.SemtechUdp.Backend.{gateway_id_of}
use chirpstack_gateway_bridg.Basicstation.Structs.{Station}
use chirpstack_gateway_bridg.Basicstation.Structs.Downlink.{
  DownlinkMessage, DownlinkError, downlink_frame_from_proto,
}
use chirpstack_gateway_bridg.Basicstation.Structs.RouterConfig.{
  Region, Band, RouterConfig, RouterError, get_router_config_old,
}
use chirpstack_gateway_bridg.Basicstation.Backend.{
  StationBackend, RawPacket, WebsocketKind, text_message, binary_message, StationError,
  no_random_token, empty_payload, downlink_error, router_error, StationEnv, StationOutcome,
  send_raw_to_gateway, send_to_gateway,
}

module _ {w : Platform} {s : Station w} (env : StationEnv s) where
  -- The token of a downlink, which is drawn where the frame has none.
  unfoldable pub station_token : DownlinkFrame w.Duration → Result StationError ℕ
  station_token frame =
      if frame.token == 0 then or_fail no_random_token env.random_token else ok frame.token

  -- The identifier of the downlink is stored once the message is made, whether or not it can be sent.
  unfoldable pub store_and_send :
      StationBackend
      → DownlinkFrame w.Duration
      → ℕ
      → Result DownlinkError DownlinkMessage
      → StationOutcome w
  store_and_send b frame token (err e) = (err (downlink_error e), b, [])
  store_and_send b frame token (ok message) =
      send_to_gateway env
        (record b { diid_map = insert (token % 65536) frame.downlink_id b.diid_map })
        (copy_eui (gateway_id_of frame.tx_info)) (env.downlink_json.marshal message)

  unfoldable pub send_with_token :
      StationBackend → DownlinkFrame w.Duration → Result StationError ℕ → StationOutcome w
  unfolding store_and_send
  send_with_token b frame (err e) = (err e, b, [])
  send_with_token b frame (ok token) =
      store_and_send b frame token (downlink_frame_from_proto s (record frame { token = token }))

  -- `SendDownlinkFrame`
  unfoldable pub send_downlink : StationBackend → DownlinkFrame w.Duration → StationOutcome w
  unfolding send_with_token
  send_downlink b frame = send_with_token b frame (station_token frame)

  unfoldable pub apply_router_config :
      StationBackend → Bytes → Result RouterError RouterConfig → StationOutcome w
  apply_router_config b gateway_id (err e) = (err (router_error e), b, [])
  apply_router_config b gateway_id (ok c) =
      send_to_gateway env b (copy_eui gateway_id) (env.router_json.marshal c)

  -- `ApplyConfiguration` of the channels for a gateway, with the settings of the backend.
  unfoldable pub apply_configuration :
      StationBackend
      → (List Channel → List Channel)
      → Region
      → Option Band
      → List Bytes
      → List (Bytes × Bytes)
      → ℕ × ℕ
      → Bytes
      → List Channel
      → StationOutcome w
  unfolding apply_router_config
  apply_configuration b sort region band net_ids join_euis range gateway_id channels =
      apply_router_config b gateway_id
        (get_router_config_old sort region band net_ids join_euis range channels)

  -- `strings.HasPrefix(payload, "{")`
  unfoldable pub kind_of : Bytes → WebsocketKind
  kind_of [] = binary_message
  kind_of (x ∷ xs) = if x == 123 then text_message else binary_message

  unfoldable pub raw_command_of : StationBackend → Bytes → Bytes → StationOutcome w
  unfolding kind_of
  raw_command_of b gateway_id [] = (err empty_payload, b, [])
  raw_command_of b gateway_id (x ∷ xs) =
      send_raw_to_gateway env b gateway_id (kind_of (x ∷ xs)) (x ∷ xs)

  -- `RawPacketForwarderCommand`
  unfoldable pub raw_packet_forwarder_command : StationBackend → RawPacket → StationOutcome w
  unfolding raw_command_of
  raw_packet_forwarder_command b pl = raw_command_of b (copy_eui pl.gateway_id) pl.payload
