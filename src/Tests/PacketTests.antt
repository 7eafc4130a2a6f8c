-- ===== src/Tests/PacketTests.antt =====
-- The theorems on packets, at packets.
use chirpstack_gateway_bridg.Prelude.{
  length, ok, Bytes, codes, ℕ, ◌+◌, ◌/◌, ◌%◌, ◌^◌, ◌≡◌, refl, ◌↔◌, true, false, none, some, [], ◌∷◌,
  arith,
}
use chirpstack_gateway_bridg.Prelude.Int.{ℤ, pos, negsuc}
use chirpstack_gateway_bridg.Platform.{
  lora, lora_modulation_info, delay, delay_timing_info, DownlinkTxInfo, DownlinkFrame, crc_ok,
  UplinkFrame,
}
use chirpstack_gateway_bridg.Packets.{protocol_supported}
use chirpstack_gateway_bridg.Packets.Polls.{PullDataPacket, marshal_pull_data, unmarshal_pull_data}
use chirpstack_gateway_bridg.Packets.Polls.RoundTrip.{IsHeader, unmarshal_pull_data_iff}
use chirpstack_gateway_bridg.Packets.DataRate.{lora_data_rate, find_data_rate}
use chirpstack_gateway_bridg.Packets.TxAck.{TxAckPayload, TxAckPacket}
use chirpstack_gateway_bridg.Decimal.{format_uint, parse_uint}
use chirpstack_gateway_bridg.Tests.{world, constant_json, constant_json-ReadsBack, mac, frame_bytes}
use chirpstack_gateway_bridg.Packets.PullResp.{Txpk, PullRespPacket}
use chirpstack_gateway_bridg.Packets.PullResp.Convert.{get_pull_resp_packet}
use chirpstack_gateway_bridg.Packets.PullResp.Convert.Schedule.{
  Scheduled, get_pull_resp_packet-IsScheduled,
}
use chirpstack_gateway_bridg.Packets.PullResp.Convert.Clock.{tmst_after_uplink}
use chirpstack_gateway_bridg.Packets.PushData.{
  Rxpk, PushDataPacket, marshal_push_data, unmarshal_push_data,
}
use chirpstack_gateway_bridg.Packets.PushData.RoundTrip.{unmarshal-marshal_push_data}
use chirpstack_gateway_bridg.Packets.PushData.Frames.{get_uplink_frame}

abbrev pub pull_packet : PullDataPacket
pull_packet = record { protocol_version = 2; random_token = 513; gateway_mac = mac }

abbrev pub pull_bytes : Bytes
pull_bytes = 2 ∷ 1 ∷ 2 ∷ 2 ∷ mac

unmarshal_pull_data_example :
    (unmarshal_pull_data pull_bytes ≡ ok pull_packet)
    ↔ (IsHeader 2 513 × (length mac ≡ 8) × (marshal_pull_data pull_packet ≡ ok pull_bytes))
unmarshal_pull_data_example = unmarshal_pull_data_iff pull_bytes pull_packet (
  omega arith,
  (
    omega arith,
    (
      omega arith,
      (
        omega arith,
        (
          omega arith,
          (
            omega arith,
            (
              omega arith,
              (omega arith, (omega arith, (omega arith, (omega arith, (omega arith, tt))))),
            ),
          ),
        ),
      ),
    ),
  ),
)

abbrev pub refusal : TxAckPayload
refusal = record { txpk_ack = record { error = codes "TOO_LATE" } }

abbrev pub tx_ack_packet : TxAckPacket
tx_ack_packet = record {
  protocol_version = 2;
  random_token = 513;
  gateway_mac = mac;
  payload = some refusal;
}

abbrev pub tx_ack_bytes : Bytes
tx_ack_bytes = 2 ∷ 1 ∷ 2 ∷ 5 ∷ 1 ∷ 2 ∷ 3 ∷ 4 ∷ 5 ∷ 6 ∷ 7 ∷ 8 ∷ 123 ∷ 125 ∷ []

abbrev txpk : Txpk ℤ
txpk = record {
  imme = false;
  rfch = 0;
  powe = 14;
  ant = 0;
  brd = 0;
  tmst = some 2000000;
  tmms = none;
  freq = pos 868;
  modu = codes "LORA";
  dat_r = record { lora = codes "SF7BW125"; fsk = 0 };
  cod_r = codes "4/5";
  fdev = 0;
  ncrc = false;
  ipol = true;
  prea = 0;
  size = 5;
  payload = frame_bytes;
}

abbrev pull_resp_packet : PullRespPacket ℤ
pull_resp_packet = record {
  protocol_version = 1;
  random_token = 513;
  payload = record { txpk = txpk };
}

abbrev downlink_tx_info : DownlinkTxInfo ℕ
downlink_tx_info = record {
  gateway_id = mac;
  frequency = 868000000;
  power = pos 14;
  modulation = lora;
  modulation_info = lora_modulation_info (record {
    bandwidth = 125;
    spreading_factor = 7;
    code_rate = codes "4/5";
    polarization_inversion = true;
  });
  board = 0;
  antenna = 0;
  timing = delay;
  timing_info = delay_timing_info (some 1000000000);
  context = 0 ∷ 15 ∷ 66 ∷ 64 ∷ [];
}

abbrev pub downlink : DownlinkFrame ℕ
downlink = record {
  phy_payload = frame_bytes;
  tx_info = some downlink_tx_info;
  token = 513;
  downlink_id = 7 ∷ 7 ∷ [];
}

abbrev pub scheduled_packet : PullRespPacket ℤ
scheduled_packet = record {
  protocol_version = 2;
  random_token = 513;
  payload = record { txpk = txpk };
}

get_pull_resp_packet_example :
    (i : DownlinkTxInfo ℕ) × (downlink.tx_info ≡ some i)
    × Scheduled world i.timing frame_bytes txpk
    × (scheduled_packet.protocol_version ≡ 2)
    × (scheduled_packet.random_token ≡ 513)
unfolding get_pull_resp_packet lora_data_rate format_uint
get_pull_resp_packet_example =
    get_pull_resp_packet-IsScheduled world 2 513 downlink scheduled_packet refl

abbrev rxpk : Rxpk world
rxpk = record {
  time = some 5;
  tmms = none;
  tmst = 1000000;
  aesk = 0;
  channel = 1;
  rfch = 0;
  stat = pos 1;
  freq = pos 868;
  brd = 0;
  rssi = negsuc 50;
  size = 5;
  dat_r = record { lora = codes "SF7BW125"; fsk = 0 };
  modu = codes "LORA";
  cod_r = codes "4/5";
  lsnr = pos 7;
  payload = frame_bytes;
  rsig = [];
}

abbrev pub push_packet : PushDataPacket world
push_packet = record {
  protocol_version = 2;
  random_token = 513;
  gateway_mac = mac;
  payload = record { rxpk = rxpk ∷ []; stat = none };
}

abbrev pub push_bytes : Bytes
push_bytes = 2 ∷ 1 ∷ 2 ∷ 0 ∷ 1 ∷ 2 ∷ 3 ∷ 4 ∷ 5 ∷ 6 ∷ 7 ∷ 8 ∷ 123 ∷ 125 ∷ []

unmarshal_push_data_example :
    unmarshal_push_data (constant_json push_packet.payload) push_bytes ≡ ok push_packet
unfolding marshal_push_data
unmarshal_push_data_example =
    unmarshal-marshal_push_data (constant_json push_packet.payload) push_packet push_bytes
      (unfold protocol_supported in refl, omega arith) refl
      (constant_json-ReadsBack push_packet.payload) refl

abbrev pub uplink : UplinkFrame world
uplink = record {
  phy_payload = frame_bytes;
  tx_info = record {
    frequency = 868000000;
    modulation = lora;
    modulation_info = lora_modulation_info (record {
      bandwidth = 125;
      spreading_factor = 7;
      code_rate = codes "4/5";
      polarization_inversion = false;
    });
  };
  rx_info = record {
    gateway_id = mac;
    time = some 5;
    time_since_gps_epoch = none;
    rssi = negsuc 50;
    lora_snr = pos 7;
    channel = 1;
    rf_chain = 0;
    board = 0;
    antenna = 0;
    context = 0 ∷ 15 ∷ 66 ∷ 64 ∷ [];
    crc_status = crc_ok;
    fine_timestamp = none;
    uplink_id = 3 ∷ [];
  };
}

-- Two antennas hear the packet, the second with an encrypted timestamp.
abbrev two_antennas : Rxpk world
two_antennas = record rxpk {
  aesk = 4;
  rsig =
      record { ant = 1; channel = 2; rssic = negsuc 60; lsnr = pos 5; etime = [] }
      ∷ record { ant = 2; channel = 3; rssic = negsuc 70; lsnr = pos 3; etime = 9 ∷ [] }
      ∷ [];
}

abbrev first_antenna : UplinkFrame world
first_antenna =
    let rx = uplink.rx_info in
    record uplink {
      rx_info = record rx { antenna = 1; channel = 2; rssi = negsuc 60; lora_snr = pos 5 };
    }

abbrev second_antenna : UplinkFrame world
second_antenna =
    let rx = uplink.rx_info in
    record uplink {
      rx_info = record rx {
        antenna = 2;
        channel = 3;
        rssi = negsuc 70;
        lora_snr = pos 3;
        fine_timestamp = some (record { encrypted_ns = 9 ∷ []; aes_key_index = 4 });
      };
    }

abbrev two_packets : PushDataPacket world
two_packets = record push_packet {
  payload = record { rxpk = rxpk ∷ two_antennas ∷ []; stat = none };
}

abbrev raw_uplink : UplinkFrame world
raw_uplink = let rx = uplink.rx_info in record uplink { rx_info = record rx { uplink_id = [] } }

tmst_after_uplink_example : txpk.tmst ≡ some ((1000000 + 1000000000 / 1000) % 2 ^ 32)
unfolding get_uplink_frame find_data_rate get_pull_resp_packet lora_data_rate format_uint parse_uint
tmst_after_uplink_example =
    tmst_after_uplink world rxpk mac false 0 raw_uplink 2 513 1000000000 downlink downlink_tx_info
      (some 1000000000) scheduled_packet (omega arith) refl refl refl refl refl refl refl
