-- ===== src/Packets/PushData/Frames.antt =====
-- `GetUplinkFrames` of internal/backend/semtechudp/packets/push_data.go.
pub mod Order
use chirpstack_gateway_bridg.Prelude.{
  ◌==◌, if◌then◌else◌, length, Result, ok, err, ◌>>=◌, or_fail, Bytes, put_u32_be, ℕ, ◌+◌, ◌%◌, ◌^◌,
  Bool, false, not, ◌&&◌, Option, none, some, List, [], ◌∷◌, ◌++◌,
}
use chirpstack_gateway_bridg.Prelude.Int.{ℤ, pos, negsuc, mul_int64}
use chirpstack_gateway_bridg.Platform.{
  Modulation, lora, fsk, Platform, ModulationInfo, no_modulation_info, lora_modulation_info,
  fsk_modulation_info, CrcStatus, no_crc, bad_crc, crc_ok, FineTimestamp, UplinkFrame,
}
use chirpstack_gateway_bridg.Packets.DataRate.{find_data_rate, atoi}
use chirpstack_gateway_bridg.Packets.PushData.{RSig, Rxpk, PushDataPacket}

pub data FrameError : Type 0 where
  bad_frame_time unknown_data_rate bad_spreading_factor bad_bandwidth no_uplink_id : FrameError

-- The `switch` on the CRC status of a packet.
unfoldable pub crc_status_of : ℤ → CrcStatus
crc_status_of (pos n) = if n == 1 then crc_ok else no_crc
crc_status_of (negsuc n) = if n == 0 then bad_crc else no_crc

pub is_crc_ok : ℤ → Bool
is_crc_ok (pos n) = n == 1
is_crc_ok (negsuc n) = false

-- The modulation of the frame: for a LoRa identifier, then for an FSK data-rate.
lora_modulation :
    Bytes → Bytes → Option (Bytes × Bytes) → Result FrameError (Modulation × ModulationInfo)
lora_modulation [] cod_r groups = ok (lora, no_modulation_info)
lora_modulation (c ∷ cs) cod_r none = err unknown_data_rate
lora_modulation (c ∷ cs) cod_r (some (sf_text, bw_text)) = do
  sf ← or_fail bad_spreading_factor (atoi sf_text)
  bw ← or_fail bad_bandwidth (atoi bw_text)
  ok (
    lora,
    lora_modulation_info (record {
      bandwidth = bw % 2 ^ 32;
      spreading_factor = sf % 2 ^ 32;
      code_rate = cod_r;
      polarization_inversion = false;
    }),
  )

fsk_modulation : ℕ → Modulation × ModulationInfo → Modulation × ModulationInfo
fsk_modulation rate m =
    if not (rate == 0)
    then (fsk, fsk_modulation_info (record { frequency_deviation = 0; datarate = rate }))
    else m

module _ (w : Platform) where
  -- The time of the frame: its own, else the clock's if the backend fakes it.
  frame_time : Option w.Time → Bool → w.Time → Result FrameError (Option w.Timestamp)
  frame_time none fake now = ok (if fake then w.timestamp_proto now else none)
  frame_time (some t) fake now =
      if not (w.is_zero_time t)
      then or_fail bad_frame_time (w.timestamp_proto t) >>= (λ ts. ok (some ts))
      else ok (if fake then w.timestamp_proto now else none)

  -- `getUplinkFrame`, where the clock shows `now`.
  unfoldable pub get_uplink_frame :
      Bytes → Rxpk w → Bool → w.Time → Result FrameError (UplinkFrame w)
  unfolding crc_status_of lora_modulation fsk_modulation frame_time
  get_uplink_frame gateway_id r fake now = do
    ts ← frame_time r.time fake now
    m ← lora_modulation r.dat_r.lora r.cod_r (find_data_rate r.dat_r.lora)
    let modulation = fsk_modulation r.dat_r.fsk m
    ok (record {
      phy_payload = r.payload;
      tx_info = record {
        frequency = w.mhz_to_hz r.freq;
        modulation = modulation.0;
        modulation_info = modulation.1;
      };
      rx_info = record {
        gateway_id = gateway_id;
        time = ts;
        time_since_gps_epoch = elim r.tmms [
          | none ↦ none
          | some ms ↦ some (w.duration_proto (mul_int64 ms 1000000))
        ];
        rssi = r.rssi;
        lora_snr = r.lsnr;
        channel = r.channel;
        rf_chain = r.rfch;
        board = r.brd;
        antenna = 0;
        context = put_u32_be r.tmst;
        crc_status = crc_status_of r.stat;
        fine_timestamp = none;
        uplink_id = [];
      };
    })

  unfoldable pub encrypted_timestamp : Bytes → ℕ → Option FineTimestamp → Option FineTimestamp
  encrypted_timestamp [] key old = old
  encrypted_timestamp (b ∷ bs) key old =
      some (record { encrypted_ns = b ∷ bs; aes_key_index = key })

  -- `setUplinkFrameRSig`
  unfoldable pub set_uplink_frame_rsig : UplinkFrame w → Rxpk w → RSig w → UplinkFrame w
  unfolding encrypted_timestamp
  set_uplink_frame_rsig frame r s =
      let rx = frame.rx_info in
      record frame {
        rx_info = record rx {
          antenna = s.ant;
          channel = s.channel;
          rssi = s.rssic;
          lora_snr = s.lsnr;
          fine_timestamp = encrypted_timestamp s.etime r.aesk rx.fine_timestamp;
        };
      }

  set_uplink_id : UplinkFrame w → Bytes → UplinkFrame w
  set_uplink_id frame id =
      let rx = frame.rx_info in record frame { rx_info = record rx { uplink_id = id } }

  skipped : Bool → Rxpk w → Bool
  unfolding is_crc_ok
  skipped skip_crc_check r = not (is_crc_ok r.stat) && not skip_crc_check

  -- The random identifiers are those of the oracle, one for each frame: `uuid n` is the draw for the
  -- frame behind n others, and `none` is a failure of `uuid.NewV4`.
  module _ (uuid : ℕ → Option Bytes) (mac : Bytes) (fake : Bool) (now : w.Time) where
    -- The inner loop, over the antennas of a packet.
    rsig_frames :
        Rxpk w → List (RSig w) → List (UplinkFrame w) → Result FrameError (List (UplinkFrame w))
    rsig_frames r [] frames = ok frames
    rsig_frames r (s ∷ ss) frames = do
      frame ← get_uplink_frame mac r fake now
      id ← or_fail no_uplink_id (uuid (length frames))
      rsig_frames r ss (frames ++ set_uplink_id (set_uplink_frame_rsig frame r s) id ∷ [])

    -- One packet that passes the CRC check.
    packet_frames :
        Rxpk w → List (RSig w) → List (UplinkFrame w) → Result FrameError (List (UplinkFrame w))
    unfolding rsig_frames
    packet_frames r [] frames = do
      frame ← get_uplink_frame mac r fake now
      id ← or_fail no_uplink_id (uuid (length frames))
      ok (frames ++ set_uplink_id frame id ∷ [])
    packet_frames r (s ∷ ss) frames = rsig_frames r (s ∷ ss) frames

    -- The outer loop, over the packets of the payload.
    uplink_frames :
        Bool → List (Rxpk w) → List (UplinkFrame w) → Result FrameError (List (UplinkFrame w))
    uplink_frames skip [] frames = ok frames
    uplink_frames skip (r ∷ rs) frames =
        (if skipped skip r then ok frames else packet_frames r r.rsig frames) >>= λ more.
        uplink_frames skip rs more

  -- `GetUplinkFrames`
  unfoldable pub get_uplink_frames :
      (ℕ → Option Bytes)
      → PushDataPacket w
      → Bool
      → Bool
      → w.Time
      → Result FrameError (List (UplinkFrame w))
  unfolding uplink_frames packet_frames set_uplink_id skipped
  get_uplink_frames uuid p skip fake now =
      uplink_frames uuid p.gateway_mac fake now skip p.payload.rxpk []
