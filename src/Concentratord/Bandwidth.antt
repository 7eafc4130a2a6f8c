-- ===== src/Concentratord/Bandwidth.antt =====
-- internal/backend/concentratord/concentratord.go: the bandwidth of a downlink, and the reply to it.
use chirpstack_gateway_bridg.Prelude.{
  Result, ok, Bytes, codes, nat_key, bytes_key, ℕ, ◌%◌, ◌^◌, ◌<◌, ◌≡◌, refl, ap, ◌∙◌, true, Option,
  some, List, [], ◌∷◌, arith,
}
use chirpstack_gateway_bridg.Platform.{
  Platform, ModulationInfo, no_modulation_info, lora_modulation_info, fsk_modulation_info,
  DownlinkTxInfo, DownlinkFrame, UplinkFrame, DownlinkTxAck,
}
use chirpstack_gateway_bridg.Concentratord.{
  Sockets, SocketError, SocketOutput, sends_command, concentratord_ack, scale_bandwidth, to_hz,
  to_khz, received, command_request, scaled_tx_info, command_frame, acknowledged, replied, with_ack,
  send_down, event_frame,
}

-- The bandwidth of the Concentratord, in Hz, is a whole number of kHz and one of 32 bits.
abbrev pub IsWholeKhz : ModulationInfo → Type 0
IsWholeKhz no_modulation_info = Unit
IsWholeKhz (lora_modulation_info i) = (i.bandwidth % 1000 ≡ 0) × (i.bandwidth < 2 ^ 32)
IsWholeKhz (fsk_modulation_info i) = Unit

to_hz-to_khz : (n : ℕ) → n % 1000 ≡ 0 → n < 2 ^ 32 → to_hz (to_khz n) ≡ n
to_hz-to_khz n h k = omega arith

scale_bandwidth-inverse :
    (m : ModulationInfo) → IsWholeKhz m → scale_bandwidth to_hz (scale_bandwidth to_khz m) ≡ m
unfolding scale_bandwidth
scale_bandwidth-inverse no_modulation_info h = refl
scale_bandwidth-inverse (fsk_modulation_info i) h = refl
scale_bandwidth-inverse (lora_modulation_info i) h =
    ap (λ n. lora_modulation_info (record i { bandwidth = n })) (to_hz-to_khz i.bandwidth h.0 h.1)

-- The rest of `SendDownlinkFrame`, from the encoded frame on.
abbrev after :
    {w : Platform}
    → Sockets w
    → Option Bytes
    → Result SocketError DownlinkTxAck × List (SocketOutput w)
after env o =
    let (answer, sent) = command_request env (codes "down") o in
    with_ack env sent (replied env answer)

-- A downlink with the modulation of an uplink that was passed on is sent with the modulation in which the Concentratord
-- received it, if its bandwidth is a whole number of kHz; and if the command is sent and its reply is
-- an acknowledgement, the acknowledgement is passed on after the command, and nothing else.
pub send_down-event_frame :
    {w : Platform} (env : Sockets w) (f : UplinkFrame w) (pl : DownlinkFrame w.Duration)
    (i : DownlinkTxInfo w.Duration) (body : Bytes) (x : ℕ) (xs : Bytes) (a : DownlinkTxAck)
    → IsWholeKhz f.tx_info.modulation_info
    → pl.tx_info ≡ some i
    → i.modulation_info ≡ (event_frame env f).tx_info.modulation_info
    → env.downlink_proto.proto_marshal
        (record pl { tx_info = some (record i { modulation_info = f.tx_info.modulation_info }) })
      ≡ some body
    → env.send_ok (codes "down") body ≡ true
    → env.reply ≡ some (x ∷ xs)
    → env.ack_proto.proto_unmarshal (x ∷ xs) ≡ some a
    → send_down env pl ≡ (ok a, sends_command (codes "down") body ∷ concentratord_ack a ∷ [])
unfolding send_down scaled_tx_info command_frame event_frame command_request received replied
    acknowledged with_ack
send_down-event_frame env f pl i body x xs a whole tx same m s r u =
    ap (after env) (ap env.downlink_proto.proto_marshal framed ∙ m) ∙ rw (s, r, u) refl
  where
    framed :
        command_frame env pl
        ≡ record pl { tx_info = some (record i { modulation_info = f.tx_info.modulation_info }) }
    framed =
        ap (λ o. record pl { tx_info = scaled_tx_info env o }) tx
        ∙ ap (λ k. record pl { tx_info = some (record i { modulation_info = k }) })
            (ap (scale_bandwidth to_hz) same
              ∙ scale_bandwidth-inverse f.tx_info.modulation_info whole)
