-- ===== src/Concentratord/Uplinks.antt =====
-- internal/backend/concentratord/concentratord.go: which uplinks the event loop passes on.
use chirpstack_gateway_bridg.Prelude.{
  if◌then◌else◌, Bool-cases, Bytes, codes, bytes_eq, nat_key, bytes_key, ◌/◌, ◌≡◌, refl, sym, ap,
  ◌∙◌, inl, inr, Bool, true, false, not, ◌&&◌, Option, none, some, List, [], ◌∷◌, ◌++◌,
}
use chirpstack_gateway_bridg.Platform.{
  Platform, CrcStatus, no_crc, bad_crc, crc_ok, ModulationInfo, no_modulation_info,
  lora_modulation_info, fsk_modulation_info, UplinkFrame, GatewayStats,
}
use chirpstack_gateway_bridg.Concentratord.{
  Concentratord, Sockets, SocketOutput, sends_command, dials_command_socket, dials_event_socket,
  concentratord_ack, concentratord_uplink, concentratord_stats, concentratord_subscribe,
  scale_bandwidth, to_khz, is_valid_crc, event_frame, uplink_event, stats_event, handle_event,
  event_outputs, event_loop,
}

module _ {w : Platform} where
  abbrev pub uplinks_of : List (SocketOutput w) → List (UplinkFrame w)
  uplinks_of [] = []
  uplinks_of (concentratord_uplink f ∷ os) = f ∷ uplinks_of os
  uplinks_of (sends_command c b ∷ os) = uplinks_of os
  uplinks_of (dials_command_socket ∷ os) = uplinks_of os
  uplinks_of (dials_event_socket ∷ os) = uplinks_of os
  uplinks_of (concentratord_ack a ∷ os) = uplinks_of os
  uplinks_of (concentratord_stats g ∷ os) = uplinks_of os
  uplinks_of (concentratord_subscribe e ∷ os) = uplinks_of os

  uplinks_of-append :
      (os ps : List (SocketOutput w)) → uplinks_of (os ++ ps) ≡ uplinks_of os ++ uplinks_of ps
  uplinks_of-append [] ps = refl
  uplinks_of-append (concentratord_uplink f ∷ os) ps = ap (◌∷◌ f) (uplinks_of-append os ps)
  uplinks_of-append (sends_command c b ∷ os) ps = uplinks_of-append os ps
  uplinks_of-append (dials_command_socket ∷ os) ps = uplinks_of-append os ps
  uplinks_of-append (dials_event_socket ∷ os) ps = uplinks_of-append os ps
  uplinks_of-append (concentratord_ack a ∷ os) ps = uplinks_of-append os ps
  uplinks_of-append (concentratord_stats g ∷ os) ps = uplinks_of-append os ps
  uplinks_of-append (concentratord_subscribe e ∷ os) ps = uplinks_of-append os ps

module _ {w : Platform} (env : Sockets w) where
  -- The uplink that a reception has, if any.
  abbrev pub received_uplink : Option (List Bytes) → Option (UplinkFrame w)
  received_uplink none = none
  received_uplink (some []) = none
  received_uplink (some (kind ∷ [])) = none
  received_uplink (some (kind ∷ body ∷ [])) =
      if bytes_eq kind (codes "up") then env.uplink_proto.proto_unmarshal body else none
  received_uplink (some (kind ∷ body ∷ x ∷ xs)) = none

  -- Every frame passes without a check of its checksum, and with one those with a valid checksum.
  abbrev pub passes : Bool → CrcStatus → Bool
  passes false status = true
  passes true no_crc = false
  passes true bad_crc = false
  passes true crc_ok = true

  -- The modulation with the bandwidth, which LoRa has, in kHz.
  abbrev pub in_khz : ModulationInfo → ModulationInfo
  in_khz no_modulation_info = no_modulation_info
  in_khz (fsk_modulation_info i) = fsk_modulation_info i
  in_khz (lora_modulation_info i) = lora_modulation_info (record {
    bandwidth = i.bandwidth / 1000;
    spreading_factor = i.spreading_factor;
    code_rate = i.code_rate;
    polarization_inversion = i.polarization_inversion;
  })

  abbrev pub frame_in_khz : UplinkFrame w → UplinkFrame w
  frame_in_khz f = record {
    phy_payload = f.phy_payload;
    tx_info = record {
      frequency = f.tx_info.frequency;
      modulation = f.tx_info.modulation;
      modulation_info = in_khz f.tx_info.modulation_info;
    };
    rx_info = f.rx_info;
  }

  abbrev pub accepted : Concentratord → Option (UplinkFrame w) → List (UplinkFrame w)
  accepted b none = []
  accepted b (some f) = if passes b.crc_check f.rx_info.crc_status then frame_in_khz f ∷ [] else []

  abbrev pub accepted_all : Concentratord → List (Option (List Bytes)) → List (UplinkFrame w)
  accepted_all b [] = []
  accepted_all b (m ∷ ms) = accepted b (received_uplink m) ++ accepted_all b ms

  event_frame-frame_in_khz : (f : UplinkFrame w) → event_frame env f ≡ frame_in_khz f
  unfolding event_frame scale_bandwidth
  event_frame-frame_in_khz f =
      ap (λ (i : ModulationInfo). record f { tx_info = record f.tx_info { modulation_info = i } })
        (scaled f.tx_info.modulation_info)
    where
      scaled : (i : ModulationInfo) → scale_bandwidth to_khz i ≡ in_khz i
      scaled no_modulation_info = unfold scale_bandwidth in refl
      scaled (fsk_modulation_info i) = unfold scale_bandwidth in refl
      scaled (lora_modulation_info i) = unfold scale_bandwidth in refl

  is_valid_crc-passes :
      (check : Bool) (status : CrcStatus)
      → not (check && not (is_valid_crc env status)) ≡ passes check status
  unfolding is_valid_crc
  is_valid_crc-passes false status = refl
  is_valid_crc-passes true no_crc = refl
  is_valid_crc-passes true bad_crc = refl
  is_valid_crc-passes true crc_ok = refl

  uplinks_of-uplink_event :
      (b : Concentratord) (o : Option (UplinkFrame w))
      → uplinks_of (event_outputs env (uplink_event env b o)) ≡ accepted b o
  unfolding event_outputs uplink_event
  uplinks_of-uplink_event b none = refl
  uplinks_of-uplink_event b (some f) =
      let same = is_valid_crc-passes b.crc_check f.rx_info.crc_status in
      elim (Bool-cases (b.crc_check && not (is_valid_crc env f.rx_info.crc_status))) [
        | inl t ↦ rw (sym same, t) refl
        | inr e ↦ rw (sym same, e) (ap (λ g. g ∷ []) (event_frame-frame_in_khz f))
      ]

  uplinks_of-stats_event :
      (o : Option (GatewayStats w)) → uplinks_of (event_outputs env (stats_event env o)) ≡ []
  unfolding event_outputs stats_event
  uplinks_of-stats_event none = refl
  uplinks_of-stats_event (some g) = refl

  uplinks_of-handle_event :
      (b : Concentratord) (m : Option (List Bytes))
      → uplinks_of (event_outputs env (handle_event env b m)) ≡ accepted b (received_uplink m)
  unfolding event_outputs handle_event
  uplinks_of-handle_event b none = refl
  uplinks_of-handle_event b (some []) = refl
  uplinks_of-handle_event b (some (kind ∷ [])) = refl
  uplinks_of-handle_event b (some (kind ∷ body ∷ x ∷ xs)) = refl
  uplinks_of-handle_event b (some (kind ∷ body ∷ [])) =
      elim (Bool-cases (bytes_eq kind (codes "up"))) [
        | inl up ↦ rw up (uplinks_of-uplink_event b (env.uplink_proto.proto_unmarshal body))
        | inr other ↦ rw other (elim (Bool-cases (bytes_eq kind (codes "stats"))) [
          | inl stats ↦ rw stats (uplinks_of-stats_event (env.stats_proto.proto_unmarshal body))
          | inr unknown ↦ rw unknown refl
        ])
      ]

  -- Whatever the event socket gives, the loop passes on the uplinks that can be decoded, in their order, without those whose
  -- checksum is not valid if it is to be checked, and each as it came but with its bandwidth, if it is a LoRa frame, in kHz.
  pub uplinks_of-event_loop :
      (b : Concentratord) (ms : List (Option (List Bytes)))
      → uplinks_of (event_loop env b ms) ≡ accepted_all b ms
  unfolding event_loop
  uplinks_of-event_loop b [] = refl
  uplinks_of-event_loop b (m ∷ ms) =
      uplinks_of-append (event_outputs env (handle_event env b m)) (event_loop env b ms)
      ∙ ap (λ fs. fs ++ uplinks_of (event_loop env b ms)) (uplinks_of-handle_event b m)
      ∙ ap (λ fs. accepted b (received_uplink m) ++ fs) (uplinks_of-event_loop b ms)
