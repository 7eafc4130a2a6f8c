-- ===== src/Tests/StationTests.antt =====
-- The theorems on the messages of the Basic Station, for a join-request and its answer.
use mathlib.Core.List.{reverse}
use chirpstack_gateway_bridg.Prelude.{
  length, take, drop, Bytes, codes, put_u16_le, nat_key, bytes_key, ℕ, ◌≡◌, refl, ◌≢◌, true, false,
  none, some, [], ◌∷◌, ◌++◌, arith,
}
use chirpstack_gateway_bridg.Prelude.Int.{ℤ, pos, negsuc, wrap}
use chirpstack_gateway_bridg.Platform.{
  lora, lora_modulation_info, delay, delay_timing_info, DownlinkTxInfo, DownlinkFrame, crc_ok,
  UplinkFrame,
}
use chirpstack_gateway_bridg.Basicstation.Structs.{
  lora_band, Station, RadioMetaData, put_u32_le, set_radio_meta_data_to_proto,
}
use chirpstack_gateway_bridg.Basicstation.Structs.Hex.{hex_decode, hex_encode}
use chirpstack_gateway_bridg.Basicstation.Structs.Uplinks.{
  JoinRequest, UplinkDataFrame, join_request_phy, join_request_to_proto, uplink_data_frame_to_proto,
}
use chirpstack_gateway_bridg.Basicstation.Structs.Uplinks.Fields.{
  join_request_to_proto_lem, uplink_data_frame_to_proto_lem,
}
use chirpstack_gateway_bridg.Basicstation.Structs.Downlink.{
  DownlinkMessage, downlink_frame_from_proto,
}
use chirpstack_gateway_bridg.Basicstation.Structs.Downlink.Context.{downlink_after_uplink}
use chirpstack_gateway_bridg.Tests.{world, mac}

-- Data-rate 5 is that of spreading factor 7.
abbrev pub station : Station world
station = record {
  Float32 = ℤ;
  int32_of = λ f. f;
  float64_of = λ f. f;
  get_data_rate = λ n. some (record {
    modulation = lora_band;
    spread_factor = pos 7;
    bandwidth = pos 125;
    bit_rate = pos 0;
  });
  get_data_rate_index = λ d. some (pos 5);
  time_of_gps_epoch = λ n. 0;
}

abbrev radio : RadioMetaData station
radio = record {
  dr = pos 5;
  frequency = 868100000;
  rctx = 1;
  xtime = 258;
  gps_time = pos 0;
  rssi = negsuc 50;
  snr = pos 7;
}

abbrev join_request : JoinRequest station
join_request = record {
  radio = radio;
  mhdr = 0;
  join_eui = mac;
  dev_eui = mac;
  dev_nonce = 258;
  mic = negsuc 0;
}

abbrev joined : Bytes
joined =
    0 ∷ 8 ∷ 7 ∷ 6 ∷ 5 ∷ 4 ∷ 3 ∷ 2 ∷ 1 ∷ 8 ∷ 7 ∷ 6 ∷ 5 ∷ 4 ∷ 3 ∷ 2 ∷ 1 ∷ 2 ∷ 1 ∷ 255 ∷ 255 ∷ 255
    ∷ 255 ∷ []

abbrev pub uplink : UplinkFrame world
uplink = record {
  phy_payload = joined;
  tx_info = record {
    frequency = 868100000;
    modulation = lora;
    modulation_info = lora_modulation_info (record {
      bandwidth = 125;
      spreading_factor = 7;
      code_rate = codes "4/5";
      polarization_inversion = false;
    });
  };
  rx_info = record {
    gateway_id = mac;
    time = none;
    time_since_gps_epoch = none;
    rssi = negsuc 50;
    lora_snr = pos 7;
    channel = 0;
    rf_chain = 0;
    board = 0;
    antenna = 0;
    context = 0 ∷ 0 ∷ 0 ∷ 0 ∷ 0 ∷ 0 ∷ 0 ∷ 1 ∷ 0 ∷ 0 ∷ 0 ∷ 0 ∷ 0 ∷ 0 ∷ 1 ∷ 2 ∷ [];
    crc_status = crc_ok;
    fine_timestamp = none;
    uplink_id = [];
  };
}

join_request_to_proto_example :
    (length uplink.phy_payload ≡ 23)
    × (take 1 uplink.phy_payload ≡ 0 ∷ [])
    × (reverse (take 8 (drop 1 uplink.phy_payload)) ≡ mac)
    × (reverse (take 8 (drop 9 uplink.phy_payload)) ≡ mac)
    × (drop 17 uplink.phy_payload ≡ put_u16_le 258 ++ put_u32_le (wrap 32 (negsuc 0)))
unfolding join_request_to_proto join_request_phy set_radio_meta_data_to_proto
join_request_to_proto_example =
    join_request_to_proto_lem station mac join_request uplink refl refl refl

abbrev pub answer_info : DownlinkTxInfo ℕ
answer_info = record {
  gateway_id = mac;
  frequency = 868100000;
  power = pos 14;
  modulation = lora;
  modulation_info = lora_modulation_info (record {
    bandwidth = 125;
    spreading_factor = 7;
    code_rate = codes "4/5";
    polarization_inversion = true;
  });
  board = 0;
  antenna = 0;
  timing = delay;
  timing_info = delay_timing_info (some 5000000000);
  context = uplink.rx_info.context;
}

abbrev pub answer : DownlinkFrame ℕ
answer = record {
  phy_payload = 32 ∷ 171 ∷ [];
  tx_info = some answer_info;
  token = 513;
  downlink_id = [];
}

abbrev pub message : DownlinkMessage
message = record {
  dc = 0;
  diid = 513;
  pdu = codes "20ab";
  priority = 1;
  rx_delay = some (pos 5);
  rx1_dr = some (pos 5);
  rx1_freq = some 868100000;
  rx2_dr = none;
  rx2_freq = none;
  dr = none;
  freq = none;
  gps_time = none;
  xtime = some 258;
  rctx = some 1;
}

downlink_after_uplink_example :
    (message.rctx ≡ some 1)
    × (message.xtime ≡ some 258)
    × (hex_decode message.pdu ≡ some answer.phy_payload)
    × (message.diid ≡ 513)
unfolding set_radio_meta_data_to_proto downlink_frame_from_proto hex_encode
downlink_after_uplink_example =
    downlink_after_uplink station mac joined radio uplink answer answer_info message (omega arith)
      (omega arith) (omega arith, (omega arith, tt)) refl refl refl refl

abbrev data_frame : UplinkDataFrame station
data_frame = record {
  radio = radio;
  mhdr = 64;
  dev_addr = pos 1;
  fctrl = 0;
  fcnt = 258;
  fopts = [];
  fport = pos 10;
  frm_payload = codes "ab";
  mic = pos 2;
}

abbrev data_uplink : UplinkFrame world
data_uplink = record uplink {
  phy_payload = 64 ∷ 1 ∷ 0 ∷ 0 ∷ 0 ∷ 0 ∷ 2 ∷ 1 ∷ 10 ∷ 171 ∷ 2 ∷ 0 ∷ 0 ∷ 0 ∷ [];
}

uplink_data_frame_to_proto_example :
    (opts rest : Bytes) × (hex_decode data_frame.fopts ≡ some opts)
    × (data_frame.fport ≡ negsuc 0 → rest ≡ [])
    × (data_frame.fport ≢ negsuc 0
        → (b : Bytes) × (hex_decode data_frame.frm_payload ≡ some b)
          × (rest ≡ wrap 8 data_frame.fport ∷ b))
    × (take 8 data_uplink.phy_payload ≡ 64 ∷ put_u32_le (wrap 32 (pos 1)) ++ (0 ∷ put_u16_le 258))
    × (drop 8 data_uplink.phy_payload ≡ opts ++ (rest ++ put_u32_le (wrap 32 (pos 2))))
unfolding uplink_data_frame_to_proto set_radio_meta_data_to_proto hex_decode
uplink_data_frame_to_proto_example =
    uplink_data_frame_to_proto_lem station mac data_frame data_uplink refl
