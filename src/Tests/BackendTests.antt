-- ===== src/Tests/BackendTests.antt =====
-- The theorems on the backend, for a gateway that polls, sends an uplink, and gets a downlink.
use chirpstack_gateway_bridg.Prelude.{
  if◌then◌else◌, ok, Bytes, bytes_eq, nat_key, bytes_key, lookup, ◌≡◌, refl, false, none, some, [],
  ◌∷◌,
}
use chirpstack_gateway_bridg.Events.{copy_eui}
use chirpstack_gateway_bridg.Filters.{match_filters}
use chirpstack_gateway_bridg.Packets.{push_ack, pull_ack, header}
use chirpstack_gateway_bridg.Packets.Polls.{unmarshal_pull_data}
use chirpstack_gateway_bridg.Packets.TxAck.{unmarshal_tx_ack}
use chirpstack_gateway_bridg.Packets.PullResp.{marshal_pull_resp}
use chirpstack_gateway_bridg.Packets.PullResp.Convert.{get_pull_resp_packet}
use chirpstack_gateway_bridg.Packets.PushData.{unmarshal_push_data}
use chirpstack_gateway_bridg.Packets.PushData.Frames.{get_uplink_frames, get_uplink_frame}
use chirpstack_gateway_bridg.Packets.PushData.Stats.{get_gateway_stats}
use chirpstack_gateway_bridg.Packets.DataRate.{find_data_rate, lora_data_rate}
use chirpstack_gateway_bridg.Decimal.{format_uint, parse_uint}
use chirpstack_gateway_bridg.SemtechUdp.Registry.{UdpAddr}
use chirpstack_gateway_bridg.SemtechUdp.Backend.{
  UdpPacket, Backend, udp_send, downlink_tx_ack, Env, ack_error, gateway_id_of, pushed_stats,
  handle_packet, downlink_token, send_downlink_frame,
}
use chirpstack_gateway_bridg.SemtechUdp.Backend.Answers.{
  sends, uplinks, passing, handle_packet-push_data, handle_packet-uplinks, handle_packet-pull_data,
}
use chirpstack_gateway_bridg.SemtechUdp.Backend.Downlinks.{
  receives, serve, tx_ack-finds-downlink, downlink-after_pull_data,
}
use chirpstack_gateway_bridg.Tests.{world, constant_json, mac, lorawan}
use chirpstack_gateway_bridg.Tests.PacketTests.{
  refusal, tx_ack_packet, tx_ack_bytes, pull_packet, pull_bytes, push_packet, push_bytes, uplink,
  downlink, scheduled_packet,
}

abbrev env : Env world
env = record {
  tx_ack_json = constant_json refusal;
  pull_resp_json = constant_json scheduled_packet.payload;
  push_data_json = constant_json push_packet.payload;
  lorawan = lorawan;
  filters = record { net_ids = []; join_euis = [] };
  now = 0;
  now_ns = 5;
  uuid = λ n. some (3 ∷ []);
  stats_uuid = none;
  random_token = none;
  is_loopback = λ ip. false;
  ip_text = λ ip. ip;
  outbound_ip = none;
}

abbrev backend : Backend
backend = record {
  token_map = [];
  closed = false;
  gateways = [];
  fake_rx_time = false;
  configurations = [];
  skip_crc_check = false;
}

abbrev sender : UdpAddr
sender = record { ip = 10 ∷ []; port = 1700 }

abbrev packet : Bytes → UdpPacket
packet bs = record { addr = sender; payload = bs }

handle_packet_push_data_example :
    (sends (handle_packet env backend (packet push_bytes)).2
      ≡ record { addr = sender; payload = header 2 513 push_ack } ∷ [])
    × ((handle_packet env backend (packet push_bytes)).1 ≡ backend)
unfolding unmarshal_push_data
handle_packet_push_data_example =
    handle_packet-push_data env backend (packet push_bytes) push_packet refl refl

handle_packet-uplinks_example :
    ((handle_packet env backend (packet push_bytes)).0 ≡ ok tt)
    × (uplinks (handle_packet env backend (packet push_bytes)).2
        ≡ passing (λ f. match_filters env.lorawan env.filters f.phy_payload) (uplink ∷ []))
unfolding unmarshal_push_data pushed_stats get_gateway_stats get_uplink_frames get_uplink_frame
    find_data_rate parse_uint
handle_packet-uplinks_example =
    handle_packet-uplinks env backend (packet push_bytes) push_packet (uplink ∷ []) [] refl refl
      refl refl

handle_packet_pull_data_example :
    ((handle_packet env backend (packet pull_bytes)).0 ≡ ok tt)
    × (sends (handle_packet env backend (packet pull_bytes)).2
        ≡ record { addr = sender; payload = header 2 513 pull_ack } ∷ [])
    × ((handle_packet env backend (packet pull_bytes)).1.token_map ≡ backend.token_map)
    × ((a : Bytes)
        → lookup a (handle_packet env backend (packet pull_bytes)).1.gateways ≡ (
            if bytes_eq mac a
            then some (record { addr = sender; last_seen = 5; protocol_version = 2 })
            else lookup a backend.gateways))
unfolding unmarshal_pull_data
handle_packet_pull_data_example =
    handle_packet-pull_data env backend (packet pull_bytes) pull_packet refl refl

tx_ack_finds_downlink_example :
    (handle_packet env
      (serve (send_downlink_frame env backend downlink).1 (receives env (packet pull_bytes) ∷ []))
      (packet tx_ack_bytes)).2
    ≡ downlink_tx_ack (record {
      gateway_id = mac;
      token = 513;
      downlink_id = 7 ∷ 7 ∷ [];
      error = ack_error (some refusal);
    })
      ∷ []
unfolding unmarshal_tx_ack downlink_token
tx_ack_finds_downlink_example =
    tx_ack-finds-downlink env env backend downlink 513 (receives env (packet pull_bytes) ∷ [])
      (packet tx_ack_bytes) tx_ack_packet refl refl (λ e. e, tt) refl refl

downlink_after_pull_data_example :
    ((send_downlink_frame env (handle_packet env backend (packet pull_bytes)).1 downlink).0 ≡ ok tt)
    × ((send_downlink_frame env (handle_packet env backend (packet pull_bytes)).1 downlink).2
        ≡ udp_send (record { addr = sender; payload = 2 ∷ 1 ∷ 2 ∷ 3 ∷ 123 ∷ 125 ∷ [] }) ∷ [])
unfolding unmarshal_pull_data downlink_token get_pull_resp_packet marshal_pull_resp lora_data_rate
    format_uint copy_eui gateway_id_of
downlink_after_pull_data_example =
    downlink-after_pull_data env env backend (packet pull_bytes) pull_packet downlink 513
      scheduled_packet (2 ∷ 1 ∷ 2 ∷ 3 ∷ 123 ∷ 125 ∷ []) refl refl refl refl refl refl
