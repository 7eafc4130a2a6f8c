-- ===== src/Basicstation/Structs/Downlink.antt =====
-- `DownlinkFrameFromProto` of internal/backend/basicstation/structs/downlink_message.go.
pub mod Context
use chirpstack_gateway_bridg.Prelude.{
  leb, if◌then◌else◌, length, take, drop, Result, ok, err, ◌>>=◌, or_fail, Bytes, u_be, nat_key,
  bytes_key, ℕ, Option, none, some,
}
use chirpstack_gateway_bridg.Prelude.Int.{ℤ, pos, quotient, wrap}
use chirpstack_gateway_bridg.Platform.{
  Modulation, lora, fsk, other_modulation, Platform, LoraModulationInfo, FskModulationInfo,
  ModulationInfo, get_lora_info, get_fsk_info, Timing, immediately, delay, gps_epoch, other_timing,
  TimingInfo, delay_timing_info, gps_epoch_timing_info, DownlinkTxInfo, DownlinkFrame,
}
use chirpstack_gateway_bridg.Basicstation.Structs.{lora_band, fsk_band, Station}
use chirpstack_gateway_bridg.Basicstation.Structs.Hex.{hex_encode}

-- `DownlinkFrame`, without the constant message type and device.
pub record DownlinkMessage : Type 0 where
  pub dc : ℕ
  pub diid : ℕ
  pub pdu : Bytes
  pub priority : ℕ
  pub rx_delay : Option ℤ
  pub rx1_dr : Option ℤ
  pub rx1_freq : Option ℕ
  pub rx2_dr : Option ℤ
  pub rx2_freq : Option ℕ
  pub dr : Option ℤ
  pub freq : Option ℕ
  pub gps_time : Option ℕ
  pub xtime : Option ℕ
  pub rctx : Option ℕ

-- `slice_out_of_range` is the panic at `Context[8:16]`, of a context without spare capacity.
pub data DownlinkError : Type 0 where
  tx_info_is_nil slice_out_of_range lora_info_missing fsk_info_missing : DownlinkError
  no_data_rate_index unexpected_modulation unexpected_timing timing_info_is_nil : DownlinkError
  bad_duration : DownlinkError

base_message : ℕ → Bytes → DownlinkMessage
base_message token phy = record {
  dc = 0;
  diid = token;
  pdu = hex_encode phy;
  priority = 1;
  rx_delay = none;
  rx1_dr = none;
  rx1_freq = none;
  rx2_dr = none;
  rx2_freq = none;
  dr = none;
  freq = none;
  gps_time = none;
  xtime = none;
  rctx = none;
}

-- A context of eight bytes or more is read as two numbers.
with_context : Bytes → DownlinkMessage → Result DownlinkError DownlinkMessage
with_context context m =
    if leb 8 (length context)
    then (if leb 16 (length context)
        then ok (record m {
          rctx = some (u_be (take 8 context));
          xtime = some (u_be (take 8 (drop 8 context)));
        })
        else err slice_out_of_range)
    else ok m

module _ {w : Platform} (s : Station w) where
  lora_index : Option LoraModulationInfo → Result DownlinkError ℤ
  lora_index none = err lora_info_missing
  lora_index (some i) = or_fail no_data_rate_index (
      s.get_data_rate_index (record {
        modulation = lora_band;
        spread_factor = pos i.spreading_factor;
        bandwidth = pos i.bandwidth;
        bit_rate = pos 0;
      }))

  fsk_index : Option FskModulationInfo → Result DownlinkError ℤ
  fsk_index none = err fsk_info_missing
  fsk_index (some i) = or_fail no_data_rate_index (
      s.get_data_rate_index (record {
        modulation = fsk_band;
        spread_factor = pos 0;
        bandwidth = pos 0;
        bit_rate = pos i.datarate;
      }))

  data_rate_index : Modulation → ModulationInfo → Result DownlinkError ℤ
  unfolding lora_index fsk_index
  data_rate_index lora i = lora_index (get_lora_info i)
  data_rate_index fsk i = fsk_index (get_fsk_info i)
  data_rate_index (other_modulation n) i = err unexpected_modulation

  -- The classes A, B and C of a device are the delay, the GPS time and no time at all.
  with_class_timing :
      Timing
      → TimingInfo w.Duration
      → ℕ
      → ℤ
      → DownlinkMessage
      → Result DownlinkError DownlinkMessage
  with_class_timing immediately i f d m =
      ok (record m { dc = 2; rx2_dr = some d; rx2_freq = some f })
  with_class_timing delay (delay_timing_info t) f d m = do
    n ← or_fail bad_duration (w.duration t)
    ok (record m {
      dc = 0;
      rx_delay = some (quotient n 1000000000);
      rx1_dr = some d;
      rx1_freq = some f;
    })
  with_class_timing delay i f d m = err timing_info_is_nil
  with_class_timing gps_epoch (gps_epoch_timing_info t) f d m = do
    n ← or_fail bad_duration (w.duration t)
    ok (record m {
      dc = 1;
      dr = some d;
      freq = some f;
      gps_time = some (wrap 64 (quotient n 1000));
    })
  with_class_timing gps_epoch i f d m = err timing_info_is_nil
  with_class_timing (other_timing n) i f d m = err unexpected_timing

  message_of : ℕ → Bytes → Option (DownlinkTxInfo w.Duration) → Result DownlinkError DownlinkMessage
  unfolding base_message with_context data_rate_index with_class_timing
  message_of token phy none = err tx_info_is_nil
  message_of token phy (some i) = do
    m ← with_context i.context (base_message token phy)
    d ← data_rate_index i.modulation i.modulation_info
    with_class_timing i.timing i.timing_info i.frequency d m

  -- `DownlinkFrameFromProto`
  unfoldable pub downlink_frame_from_proto :
      DownlinkFrame w.Duration → Result DownlinkError DownlinkMessage
  unfolding message_of
  downlink_frame_from_proto frame = message_of frame.token frame.phy_payload frame.tx_info
