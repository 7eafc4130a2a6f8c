-- ===== src/Concentratord.antt =====
-- internal/backend/concentratord/concentratord.go: the backend for the ChirpStack Concentratord, which has two
-- ZeroMQ sockets. What a socket does, and protobuf, are parameters. A message that lacks a part is one whose part
-- has protobuf's default values.
pub mod Uplinks
pub mod Bandwidth
use chirpstack_gateway_bridg.Prelude.{
  ltb, leb, ◌==◌, if◌then◌else◌, ltb→lt, lt→ltb, leb→le, ==_iff, Bool-cases, Option-cases, is_some,
  then-eq, else-eq, length, get_or, take, drop, length-append, take-append, drop-append, take_all,
  length-take, take-append-drop, All, All-append, set_at, set_from, fill, set_from-fill, Pointwise,
  Result, ok, err, ◌>>=◌, map_err, >>=-eq-ok, ok-injective, or_fail, or_fail-eq-ok, Result-cases,
  guard-eq-ok, Bytes, AreBytes, codes, bytes_eq, bytes_eq_iff, put_u16_le, put_u32_be, from_be,
  u_be, Key, nat_key, bytes_key, beq_refl, lookup, insert, delete, lookup-insert, lookup-delete, ℕ,
  zero, suc, ◌+◌, ◌-◌, ◌*◌, ◌/◌, ◌%◌, ◌^◌, ◌≤◌, ◌<◌, ◌≡◌, refl, sym, ap, ◌∙◌, ◌≢◌, ◌↔◌, ◌⊎◌, inl,
  inr, Bool, true, false, not, ◌&&◌, ◌||◌, Option, none, some, List, [], ◌∷◌, ◌++◌, map, arith,
}
use chirpstack_gateway_bridg.Platform.{
  Modulation, lora, fsk, other_modulation, Platform, Json, ReadsBack, LoraModulationInfo,
  FskModulationInfo, ModulationInfo, no_modulation_info, lora_modulation_info, fsk_modulation_info,
  get_lora_info, get_fsk_info, Timing, immediately, delay, gps_epoch, other_timing, TimingInfo,
  no_timing_info, delay_timing_info, gps_epoch_timing_info, DownlinkTxInfo, DownlinkFrame,
  CrcStatus, no_crc, bad_crc, crc_ok, UplinkTxInfo, FineTimestamp, UplinkRxInfo, UplinkFrame,
  Location, GatewayStats, DownlinkTxAck,
}
use chirpstack_gateway_bridg.Events.{Subscribe, copy_eui}

-- The fields that are not sockets, channels or addresses.
pub record Concentratord : Type 0 where
  pub own_gateway_id : Bytes
  pub crc_check : Bool

-- `golang/protobuf` at one type.
pub record Proto (A : Type 0) : Type 0 where
  pub proto_marshal : A → Option Bytes
  pub proto_unmarshal : Bytes → Option A

-- What stands around one call: the codecs, whether a command can be sent, and the reply.
pub record Sockets (w : Platform) : Type 0 where
  pub downlink_proto : Proto (DownlinkFrame w.Duration)
  pub ack_proto : Proto DownlinkTxAck
  pub uplink_proto : Proto (UplinkFrame w)
  pub stats_proto : Proto (GatewayStats w)
  pub send_ok : Bytes → Bytes → Bool
  pub reply : Option Bytes

pub data SocketError : Type 0 where
  marshal_error unmarshal_error send_error receive_error no_reply : SocketError
  unexpected_frame_count : ℕ → SocketError
  unexpected_event : Bytes → SocketError
  -- `log.Fatal`, which ends the program.
  fatal : SocketError → SocketError

-- A command that is sent, a socket that is dialed again, and a value on one of the channels.
pub data SocketOutput (w : Platform) : Type 0 where
  sends_command : Bytes → Bytes → SocketOutput w
  dials_command_socket dials_event_socket : SocketOutput w
  concentratord_ack : DownlinkTxAck → SocketOutput w
  concentratord_uplink : UplinkFrame w → SocketOutput w
  concentratord_stats : GatewayStats w → SocketOutput w
  concentratord_subscribe : Subscribe → SocketOutput w

-- The scaling of `Bandwidth`, where the modulation is LoRa. The numbers are `uint32`.
unfoldable pub scale_bandwidth : (ℕ → ℕ) → ModulationInfo → ModulationInfo
scale_bandwidth f no_modulation_info = no_modulation_info
scale_bandwidth f (lora_modulation_info i) =
    lora_modulation_info (record i { bandwidth = f i.bandwidth })
scale_bandwidth f (fsk_modulation_info i) = fsk_modulation_info i

abbrev pub to_hz : ℕ → ℕ
to_hz n = n * 1000 % 2 ^ 32

abbrev pub to_khz : ℕ → ℕ
to_khz n = n / 1000

module _ {w : Platform} (env : Sockets w) where
  -- The reply to a command that was sent.
  unfoldable pub received :
      Bytes → Bytes → Option Bytes → Result SocketError Bytes × List (SocketOutput w)
  received command body none =
      (err receive_error, sends_command command body ∷ dials_command_socket ∷ [])
  received command body (some bytes) = (ok bytes, sends_command command body ∷ [])

  -- `commandRequest`, of the body of the message, where it can be written.
  unfoldable pub command_request :
      Bytes → Option Bytes → Result SocketError Bytes × List (SocketOutput w)
  unfolding received
  command_request command none = (err marshal_error, [])
  command_request command (some body) =
      if env.send_ok command body
      then received command body env.reply
      else (err send_error, dials_command_socket ∷ [])

  -- `getGatewayID`, and the subscription of `NewBackend`
  started :
      Bool → Result SocketError Bytes → Result SocketError Concentratord × List (SocketOutput w)
  started check (err e) = (err e, [])
  started check (ok id) = (
    ok (record { own_gateway_id = copy_eui id; crc_check = check }),
    concentratord_subscribe (record { gateway_id = copy_eui id; subscribe = true }) ∷ [],
  )

  unfoldable pub new_backend : Bool → Result SocketError Concentratord × List (SocketOutput w)
  unfolding started
  new_backend check =
      let (answer, sent) = command_request (codes "gateway_id") (some []) in
      let (b, more) = started check answer in (b, sent ++ more)

  scaled_tx_info : Option (DownlinkTxInfo w.Duration) → Option (DownlinkTxInfo w.Duration)
  scaled_tx_info none = none
  scaled_tx_info (some i) =
      some (record i { modulation_info = scale_bandwidth to_hz i.modulation_info })

  -- `SendDownlinkFrame`: the frame of the command, and what is done with the reply.
  unfoldable pub command_frame : DownlinkFrame w.Duration → DownlinkFrame w.Duration
  unfolding scaled_tx_info
  command_frame pl = record pl { tx_info = scaled_tx_info pl.tx_info }

  acknowledged : Option DownlinkTxAck → Result SocketError DownlinkTxAck
  acknowledged = or_fail unmarshal_error

  unfoldable pub replied : Result SocketError Bytes → Result SocketError DownlinkTxAck
  unfolding acknowledged
  replied (err e) = err (fatal e)
  replied (ok []) = err no_reply
  replied (ok (x ∷ xs)) = acknowledged (env.ack_proto.proto_unmarshal (x ∷ xs))

  unfoldable pub with_ack :
      List (SocketOutput w)
      → Result SocketError DownlinkTxAck
      → Result SocketError DownlinkTxAck × List (SocketOutput w)
  with_ack sent (err e) = (err e, sent)
  with_ack sent (ok a) = (ok a, sent ++ concentratord_ack a ∷ [])

  unfoldable pub send_down :
      DownlinkFrame w.Duration → Result SocketError DownlinkTxAck × List (SocketOutput w)
  unfolding command_frame replied with_ack
  send_down pl =
      let (answer, sent) =
        command_request (codes "down") (env.downlink_proto.proto_marshal (command_frame pl)) in
      with_ack sent (replied answer)

  -- `b.crcCheck && CrcStatus != CRC_OK`
  unfoldable pub is_valid_crc : CrcStatus → Bool
  is_valid_crc no_crc = false
  is_valid_crc bad_crc = false
  is_valid_crc crc_ok = true

  unfoldable pub event_frame : UplinkFrame w → UplinkFrame w
  event_frame pl = record pl {
    tx_info = record pl.tx_info {
      modulation_info = scale_bandwidth to_khz pl.tx_info.modulation_info;
    };
  }

  -- `handleUplinkFrame` and `handleGatewayStats` of what is decoded.
  uplink_event : Concentratord → Option (UplinkFrame w) → Result SocketError (List (SocketOutput w))
  unfolding is_valid_crc event_frame
  uplink_event b none = err unmarshal_error
  uplink_event b (some pl) =
      if b.crc_check && not (is_valid_crc pl.rx_info.crc_status)
      then ok []
      else ok (concentratord_uplink (event_frame pl) ∷ [])

  stats_event : Option (GatewayStats w) → Result SocketError (List (SocketOutput w))
  stats_event none = err unmarshal_error
  stats_event (some pl) = ok (concentratord_stats pl ∷ [])

  -- One round of `eventLoop`: no message is an error of the socket, after which both are dialed again.
  unfoldable pub handle_event :
      Concentratord → Option (List Bytes) → Result SocketError (List (SocketOutput w))
  unfolding uplink_event stats_event
  handle_event b none = ok (dials_event_socket ∷ dials_command_socket ∷ [])
  handle_event b (some []) = ok []
  handle_event b (some (kind ∷ [])) = err (unexpected_frame_count 1)
  handle_event b (some (kind ∷ body ∷ [])) =
      if bytes_eq kind (codes "up")
      then uplink_event b (env.uplink_proto.proto_unmarshal body)
      else if bytes_eq kind (codes "stats")
      then stats_event (env.stats_proto.proto_unmarshal body)
      else err (unexpected_event kind)
  handle_event b (some (kind ∷ body ∷ x ∷ xs)) = err (unexpected_frame_count (3 + length xs))

  -- What a round sends; an error is logged.
  event_outputs : Result SocketError (List (SocketOutput w)) → List (SocketOutput w)
  event_outputs (err e) = []
  event_outputs (ok os) = os

  -- The loop, for a sequence of receptions.
  unfoldable pub event_loop : Concentratord → List (Option (List Bytes)) → List (SocketOutput w)
  unfolding event_outputs handle_event
  event_loop b [] = []
  event_loop b (m ∷ ms) = event_outputs (handle_event b m) ++ event_loop b ms
