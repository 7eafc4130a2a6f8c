-- ===== src/Tests/ConcentratordTests.antt =====
-- The theorems on the Concentratord, for an uplink of a LoRa device and its answer.
use chirpstack_gateway_bridg.Prelude.{
  if◌then◌else◌, bytes_eq, ok, Bytes, codes, nat_key, bytes_key, ℕ, ◌≡◌, refl, true, false, Option,
  none, some, List, [], ◌∷◌, arith,
}
use chirpstack_gateway_bridg.Platform.{
  bad_crc, ModulationInfo, lora_modulation_info, DownlinkTxInfo, UplinkFrame, GatewayStats,
  DownlinkTxAck,
}
use chirpstack_gateway_bridg.Concentratord.{
  Concentratord, Proto, Sockets, sends_command, concentratord_ack, scale_bandwidth, to_khz,
  send_down, event_frame, event_loop,
}
use chirpstack_gateway_bridg.Concentratord.Uplinks.{uplinks_of, uplinks_of-event_loop}
use chirpstack_gateway_bridg.Concentratord.Bandwidth.{send_down-event_frame}
use chirpstack_gateway_bridg.Tests.{world, mac}
use chirpstack_gateway_bridg.Tests.StationTests.{uplink, answer_info, answer}

abbrev modulation_in_hz : ModulationInfo
modulation_in_hz = lora_modulation_info (record {
  bandwidth = 125000;
  spreading_factor = 7;
  code_rate = codes "4/5";
  polarization_inversion = false;
})

abbrev uplink_in_hz : UplinkFrame world
uplink_in_hz = record uplink {
  tx_info = record uplink.tx_info { modulation_info = modulation_in_hz };
}

abbrev acknowledgement : DownlinkTxAck
acknowledgement = record { gateway_id = mac; token = 513; downlink_id = []; error = [] }

abbrev constant_proto : {A : Type 0} → A → Proto A
constant_proto a = record { proto_marshal = λ x. some (1 ∷ []); proto_unmarshal = λ bs. some a }

abbrev stats : GatewayStats world
stats = record {
  gateway_id = mac;
  ip = [];
  time = 0;
  location = none;
  config_version = [];
  rx_packets_received = 0;
  rx_packets_received_ok = 0;
  tx_packets_received = 0;
  tx_packets_emitted = 0;
  stats_id = [];
}

abbrev bad_uplink : UplinkFrame world
bad_uplink =
    let rx = uplink.rx_info in record uplink { rx_info = record rx { crc_status = bad_crc } }

abbrev uplink_proto : Proto (UplinkFrame world)
uplink_proto = record {
  proto_marshal = λ x. some (1 ∷ []);
  proto_unmarshal = λ bs.
      if bytes_eq bs (1 ∷ [])
      then some uplink_in_hz
      else if bytes_eq bs (2 ∷ [])
      then some bad_uplink
      else none;
}

abbrev sockets : Sockets world
sockets = record {
  downlink_proto = constant_proto answer;
  ack_proto = constant_proto acknowledgement;
  uplink_proto = uplink_proto;
  stats_proto = constant_proto stats;
  send_ok = λ command body. true;
  reply = some (1 ∷ []);
}

abbrev concentratord : Concentratord
concentratord = record { own_gateway_id = mac; crc_check = true }

abbrev receptions : List (Option (List Bytes))
receptions =
    some (codes "up" ∷ (2 ∷ []) ∷ [])
    ∷ some (codes "up" ∷ (1 ∷ []) ∷ [])
    ∷ none
    ∷ some (codes "stats" ∷ [] ∷ [])
    ∷ some (codes "up" ∷ (3 ∷ []) ∷ [])
    ∷ []

abbrev answered_frame : UplinkFrame world
answered_frame = record uplink {
  tx_info = record uplink.tx_info {
    modulation_info = lora_modulation_info (record {
      bandwidth = 125;
      spreading_factor = 7;
      code_rate = codes "4/5";
      polarization_inversion = false;
    });
  };
}

uplinks_of-event_loop_example :
    uplinks_of (event_loop sockets concentratord receptions) ≡ answered_frame ∷ []
uplinks_of-event_loop_example = uplinks_of-event_loop sockets concentratord receptions

abbrev answer_in_khz : DownlinkTxInfo ℕ
answer_in_khz = record answer_info { modulation_info = scale_bandwidth to_khz modulation_in_hz }

send_down-event_frame_example :
    send_down sockets (record answer { tx_info = some answer_in_khz }) ≡ (
      ok acknowledgement,
      sends_command (codes "down") (1 ∷ []) ∷ concentratord_ack acknowledgement ∷ [],
    )
unfolding event_frame
send_down-event_frame_example =
    send_down-event_frame sockets uplink_in_hz (record answer { tx_info = some answer_in_khz })
      answer_in_khz (1 ∷ []) 1 [] acknowledgement (omega arith, omega arith) refl refl refl refl
      refl refl
