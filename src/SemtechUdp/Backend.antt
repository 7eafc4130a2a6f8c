-- ===== src/SemtechUdp/Backend.antt =====
-- internal/backend/semtechudp/backend.go: what the backend does with a packet and with a downlink. A
-- handler holds the lock of the backend while it runs, so it is one step. It returns its error, the new
-- state, and what it has sent on the channels, in order.
pub mod Answers
pub mod Downlinks
use chirpstack_gateway_bridg.Prelude.{
  ◌==◌, if◌then◌else◌, Result, ok, err, ◌>>=◌, map_err, or_fail, Bytes, codes, bytes_eq, nat_key,
  bytes_key, lookup, insert, ℕ, ◌+◌, ◌%◌, Bool, Option, none, some, List, [], ◌∷◌, ◌++◌, map,
}
use chirpstack_gateway_bridg.Platform.{
  Platform, Json, DownlinkTxInfo, DownlinkFrame, UplinkFrame, GatewayStats, DownlinkTxAck,
}
use chirpstack_gateway_bridg.Events.{Subscribe, copy_eui}
use chirpstack_gateway_bridg.Filters.{Lorawan, Filters, match_filters}
use chirpstack_gateway_bridg.Packets.{
  PacketError, PacketType, push_data, pull_data, tx_ack, get_packet_type,
}
use chirpstack_gateway_bridg.Packets.Polls.{
  PullDataPacket, unmarshal_pull_data, marshal_pull_ack, marshal_push_ack,
}
use chirpstack_gateway_bridg.Packets.TxAck.{TxAckPayload, TxAckPacket, unmarshal_tx_ack}
use chirpstack_gateway_bridg.Packets.PullResp.{PullRespPayload, marshal_pull_resp}
use chirpstack_gateway_bridg.Packets.PullResp.Convert.{ConvertError, get_pull_resp_packet}
use chirpstack_gateway_bridg.Packets.PushData.{PushDataPayload, PushDataPacket, unmarshal_push_data}
use chirpstack_gateway_bridg.Packets.PushData.Stats.{StatsError, get_gateway_stats}
use chirpstack_gateway_bridg.Packets.PushData.Frames.{FrameError, get_uplink_frames}
use chirpstack_gateway_bridg.SemtechUdp.Registry.{UdpAddr, Gateways, RegistryError, get, set}

pub record UdpPacket : Type 0 where
  pub addr : UdpAddr
  pub payload : Bytes

-- `pfConfiguration`
pub record PfConfiguration : Type 0 where
  pub gateway_id : Bytes
  pub base_file : Bytes
  pub output_file : Bytes
  pub restart_command : Bytes
  pub current_version : Bytes

pub record Backend : Type 0 where
  pub token_map : List (ℕ × Bytes)
  pub closed : Bool
  pub gateways : Gateways
  pub fake_rx_time : Bool
  pub configurations : List PfConfiguration
  pub skip_crc_check : Bool

-- A value on one of the channels.
pub data Output (w : Platform) : Type 0 where
  udp_send : UdpPacket → Output w
  downlink_tx_ack : DownlinkTxAck → Output w
  gateway_stats : GatewayStats w → Output w
  uplink_frame : UplinkFrame w → Output w
  subscribe_event : Subscribe → Output w

pub data BackendError : Type 0 where
  packet_error : PacketError → BackendError
  registry_error : RegistryError → BackendError
  convert_error : ConvertError → BackendError
  stats_error : StatsError → BackendError
  frame_error : FrameError → BackendError
  unknown_packet_type : PacketType → BackendError
  no_random_bytes : BackendError

-- What stands around one call: the codecs, the filters, the clock (twice: `time.Now` as a time of the platform
-- and in nanoseconds), random draws, and the addresses of `net`.
pub record Env (w : Platform) : Type 0 where
  pub tx_ack_json : Json TxAckPayload
  pub pull_resp_json : Json (PullRespPayload w.Float)
  pub push_data_json : Json (PushDataPayload w)
  pub lorawan : Lorawan
  pub filters : Filters
  pub now : w.Time
  pub now_ns : ℕ
  -- The identifiers of the uplinks and of the stats, and two random bytes as a token.
  pub uuid : ℕ → Option Bytes
  pub stats_uuid : Option Bytes
  pub random_token : Option ℕ
  -- `IP.IsLoopback`, `IP.String` and `getOutboundIP`
  pub is_loopback : Bytes → Bool
  pub ip_text : Bytes → Bytes
  pub outbound_ip : Option Bytes

abbrev pub Outcome : Platform → Type 0
Outcome w = Result BackendError Unit × Backend × List (Output w)

-- `b.tokenMap[token]`: a missing token gives nil.
unfoldable pub downlink_id_of : Backend → ℕ → Bytes
downlink_id_of b token = elim (lookup token b.token_map) [ none ↦ [] | some id ↦ id ]

-- `Error` of the acknowledgement, where `NONE` is no error.
abbrev pub no_error : Bytes
no_error = codes "NONE"

unfoldable pub ack_error : Option TxAckPayload → Bytes
ack_error none = []
ack_error (some p) = if bytes_eq p.txpk_ack.error no_error then [] else p.txpk_ack.error

-- `GetTxInfo().GetGatewayId()`
unfoldable pub gateway_id_of : {D : Type 0} → Option (DownlinkTxInfo D) → Bytes
gateway_id_of none = []
gateway_id_of (some i) = i.gateway_id

-- The version of the last configuration of the gateway.
unfoldable pub config_version_of : List PfConfiguration → Bytes → Bytes → Bytes
config_version_of [] id version = version
config_version_of (c ∷ cs) id version =
    config_version_of cs id (if bytes_eq id c.gateway_id then c.current_version else version)

module _ {w : Platform} (env : Env w) where
  -- Each handler goes on with what is decoded.
  pull_data_decoded : Backend → UdpAddr → Result PacketError PullDataPacket → Outcome w
  pull_data_decoded b addr (err e) = (err (packet_error e), b, [])
  pull_data_decoded b addr (ok p) =
      elim (marshal_pull_ack
        (record { protocol_version = p.protocol_version; random_token = p.random_token })) [
          | err e ↦ (err (packet_error e), b, [])
          | ok bytes ↦
              let (gateways, sent) = set b.gateways p.gateway_mac (record {
                addr = addr;
                last_seen = env.now_ns;
                protocol_version = p.protocol_version;
              }) in
              (
                ok tt,
                record b { gateways = gateways },
                map subscribe_event sent ++ udp_send (record { addr = addr; payload = bytes }) ∷ [],
              )
        ]

  unfoldable pub handle_pull_data : Backend → UdpPacket → Outcome w
  unfolding pull_data_decoded
  handle_pull_data b up = pull_data_decoded b up.addr (unmarshal_pull_data up.payload)

  tx_ack_decoded : Backend → Result PacketError TxAckPacket → Outcome w
  unfolding ack_error
  tx_ack_decoded b (err e) = (err (packet_error e), b, [])
  tx_ack_decoded b (ok p) = (
    ok tt,
    b,
    downlink_tx_ack (record {
      gateway_id = p.gateway_mac;
      token = p.random_token;
      downlink_id = downlink_id_of b p.random_token;
      error = ack_error p.payload;
    })
        ∷ [],
  )

  unfoldable pub handle_tx_ack : Backend → UdpPacket → Outcome w
  unfolding tx_ack_decoded
  handle_tx_ack b up = tx_ack_decoded b (unmarshal_tx_ack env.tx_ack_json up.payload)

  -- `stats.Ip`
  stats_ip : UdpAddr → Bytes
  stats_ip addr =
      if env.is_loopback addr.ip
      then elim env.outbound_ip [ none ↦ [] | some ip ↦ env.ip_text ip ]
      else env.ip_text addr.ip

  -- `handleStats`
  handle_stats : Backend → Bytes → GatewayStats w → List (Output w)
  unfolding config_version_of
  handle_stats b gateway_id s =
      gateway_stats (record s {
        config_version = config_version_of b.configurations gateway_id s.config_version;
      })
      ∷ []

  -- `handleUplinkFrames`
  unfoldable pub handle_uplink_frames : List (UplinkFrame w) → List (Output w)
  handle_uplink_frames [] = []
  handle_uplink_frames (f ∷ fs) =
      let rest = handle_uplink_frames fs in
      if match_filters env.lorawan env.filters f.phy_payload then uplink_frame f ∷ rest else rest

  -- The part of `handlePushData` for the stats.
  stats_outputs :
      Backend
      → UdpAddr
      → Bytes
      → Result StatsError (Option (GatewayStats w))
      → Result BackendError (List (Output w))
  unfolding stats_ip handle_stats
  stats_outputs b addr mac (err e) = err (stats_error e)
  stats_outputs b addr mac (ok none) = ok []
  stats_outputs b addr mac (ok (some s)) = ok (handle_stats b mac (record s { ip = stats_ip addr }))

  unfoldable pub pushed_stats :
      Backend → UdpAddr → PushDataPacket w → Result BackendError (List (Output w))
  unfolding stats_outputs
  pushed_stats b addr p = stats_outputs b addr p.gateway_mac (get_gateway_stats w p env.stats_uuid)

  -- The part for the uplinks.
  frame_outputs : Result FrameError (List (UplinkFrame w)) → Result BackendError (List (Output w))
  frame_outputs (err e) = err (frame_error e)
  frame_outputs (ok frames) = ok (handle_uplink_frames frames)

  pushed_frames : Backend → PushDataPacket w → Result BackendError (List (Output w))
  unfolding frame_outputs
  pushed_frames b p =
      frame_outputs (get_uplink_frames w env.uuid p b.skip_crc_check b.fake_rx_time env.now)

  -- Two parts in turn: the second only if the first has no error.
  then_do :
      Backend
      → List (Output w)
      → Result BackendError (List (Output w))
      → Result BackendError (List (Output w))
      → Outcome w
  then_do b sent (err e) next = (err e, b, sent)
  then_do b sent (ok more) (err e) = (err e, b, sent ++ more)
  then_do b sent (ok more) (ok last) = (ok tt, b, sent ++ more ++ last)

  push_data_decoded : Backend → UdpAddr → Result PacketError (PushDataPacket w) → Outcome w
  unfolding pushed_stats pushed_frames then_do
  push_data_decoded b addr (err e) = (err (packet_error e), b, [])
  push_data_decoded b addr (ok p) =
      elim (marshal_push_ack
        (record { protocol_version = p.protocol_version; random_token = p.random_token })) [
          | err e ↦ (err (packet_error e), b, [])
          | ok bytes ↦
              then_do b (udp_send (record { addr = addr; payload = bytes }) ∷ [])
                (pushed_stats b addr p) (pushed_frames b p)
        ]

  unfoldable pub handle_push_data : Backend → UdpPacket → Outcome w
  unfolding push_data_decoded
  handle_push_data b up =
      push_data_decoded b up.addr (unmarshal_push_data env.push_data_json up.payload)

  -- The `switch` on the type of the packet.
  unfoldable pub dispatch : Backend → UdpPacket → Result PacketError PacketType → Outcome w
  dispatch b up (err e) = (err (packet_error e), b, [])
  dispatch b up (ok kind) =
      if kind == push_data
      then handle_push_data b up
      else if kind == pull_data
      then handle_pull_data b up
      else if kind == tx_ack
      then handle_tx_ack b up
      else (err (unknown_packet_type kind), b, [])

  unfoldable pub handle_packet : Backend → UdpPacket → Outcome w
  unfolding dispatch
  handle_packet b up =
      if b.closed then (ok tt, b, []) else dispatch b up (get_packet_type up.payload)

  -- The token of a downlink, which is drawn where the frame has none.
  unfoldable pub downlink_token : DownlinkFrame w.Duration → Result BackendError ℕ
  downlink_token frame =
      if frame.token == 0 then or_fail no_random_bytes env.random_token else ok frame.token

  -- The rest of `SendDownlinkFrame`, from the lookup of the gateway on.
  packet_for : Backend → ℕ → DownlinkFrame w.Duration → Result BackendError UdpPacket
  unfolding gateway_id_of
  packet_for b token frame = do
    gw ← map_err registry_error (get b.gateways (copy_eui (gateway_id_of frame.tx_info)))
    resp ← map_err convert_error (get_pull_resp_packet w gw.protocol_version (token % 65536) frame)
    bytes ← map_err packet_error (marshal_pull_resp env.pull_resp_json resp)
    ok (record { addr = gw.addr; payload = bytes })

  send_result : Backend → Result BackendError UdpPacket → Outcome w
  send_result b (err e) = (err e, b, [])
  send_result b (ok packet) = (ok tt, b, udp_send packet ∷ [])

  -- The token is stored whether or not the packet can be made.
  send_with : Backend → DownlinkFrame w.Duration → Result BackendError ℕ → Outcome w
  unfolding packet_for send_result
  send_with b frame (err e) = (err e, b, [])
  send_with b frame (ok token) =
      let stored : Backend = record b {
        token_map = insert (token % 65536) frame.downlink_id b.token_map;
      } in
      send_result stored (packet_for stored token frame)

  -- `SendDownlinkFrame`
  unfoldable pub send_downlink_frame : Backend → DownlinkFrame w.Duration → Outcome w
  unfolding send_with
  send_downlink_frame b frame = send_with b frame (downlink_token frame)
