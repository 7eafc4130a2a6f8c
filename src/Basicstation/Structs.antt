-- ===== src/Basicstation/Structs.antt =====
-- internal/backend/basicstation/structs: the data that its messages share (radio_meta_data.go). The regional
-- parameters of the package `band` and the numbers of 32 bits are parameters.
pub mod Hex
pub mod Eui64
pub mod Uplinks
pub mod Downlink
pub mod RouterConfig
use chirpstack_gateway_bridg.Prelude.{
  if◌then◌else◌, Result, ok, ◌>>=◌, or_fail, Bytes, codes, put_u32_be, ℕ, ◌+◌, ◌/◌, ◌%◌, ◌^◌, false,
  Option, none, some, [], ◌∷◌, ◌++◌,
}
use chirpstack_gateway_bridg.Prelude.Int.{ℤ, wrap, mul_int64, is_zero_ℤ}
use chirpstack_gateway_bridg.Platform.{
  lora, fsk, Platform, no_modulation_info, lora_modulation_info, fsk_modulation_info, crc_ok,
  UplinkTxInfo, UplinkFrame,
}

-- `band.DataRate`
pub data BandModulation : Type 0 where
  lora_band fsk_band other_band : BandModulation

pub record BandDataRate : Type 0 where
  pub modulation : BandModulation
  pub spread_factor : ℤ
  pub bandwidth : ℤ
  pub bit_rate : ℤ

pub record Station (w : Platform) : Type 1 where
  -- `float32`, with `int32(f)` and `float64(f)`
  pub Float32 : Type 0
  pub int32_of : Float32 → ℤ
  pub float64_of : Float32 → w.Float
  -- `Band.GetDataRate`, and `Band.GetDataRateIndex` of downlinks
  pub get_data_rate : ℤ → Option BandDataRate
  pub get_data_rate_index : BandDataRate → Option ℤ
  -- `gps.NewTimeFromTimeSinceGPSEpoch` of nanoseconds
  pub time_of_gps_epoch : ℤ → w.Time

pub record RadioMetaData {w : Platform} (s : Station w) : Type 0 where
  pub dr : ℤ
  pub frequency : ℕ
  pub rctx : ℕ
  pub xtime : ℕ
  pub gps_time : ℤ
  pub rssi : s.Float32
  pub snr : s.Float32

pub data UplinkError : Type 0 where
  bad_data_rate bad_timestamp bad_fopts bad_frm_payload : UplinkError

-- `binary.BigEndian.PutUint64`
abbrev pub put_u64_be : ℕ → Bytes
put_u64_be n = put_u32_be (n / 2 ^ 32) ++ put_u32_be n

-- `binary.LittleEndian.PutUint32`
abbrev pub put_u32_le : ℕ → Bytes
put_u32_le n = n % 256 ∷ n / 256 % 256 ∷ n / 2 ^ 16 % 256 ∷ n / 2 ^ 24 % 256 ∷ []

module _ {w : Platform} (s : Station w) where
  -- `TxInfo`, where a modulation that is not set is LORA.
  tx_info_of : ℕ → BandModulation → BandDataRate → UplinkTxInfo
  tx_info_of frequency lora_band d = record {
    frequency = frequency;
    modulation = lora;
    modulation_info = lora_modulation_info (record {
      bandwidth = wrap 32 d.bandwidth;
      spreading_factor = wrap 32 d.spread_factor;
      code_rate = codes "4/5";
      polarization_inversion = false;
    });
  }
  tx_info_of frequency fsk_band d = record {
    frequency = frequency;
    modulation = fsk;
    modulation_info =
        fsk_modulation_info (record { frequency_deviation = 0; datarate = wrap 32 d.bit_rate });
  }
  tx_info_of frequency other_band d = record {
    frequency = frequency;
    modulation = lora;
    modulation_info = no_modulation_info;
  }

  -- The two times of an uplink, from microseconds since the GPS epoch.
  times_of : ℤ → Result UplinkError (Option w.Duration × Option w.Timestamp)
  times_of gps =
      if is_zero_ℤ gps
      then ok (none, none)
      else or_fail bad_timestamp (w.timestamp_proto (s.time_of_gps_epoch (mul_int64 gps 1000)))
        >>= λ ts. ok (some (w.duration_proto (mul_int64 gps 1000)), some ts)

  -- `SetRadioMetaDataToProto` on a frame with the given bytes.
  unfoldable pub set_radio_meta_data_to_proto :
      Bytes → RadioMetaData s → Bytes → Result UplinkError (UplinkFrame w)
  unfolding tx_info_of times_of
  set_radio_meta_data_to_proto gateway_id rmd phy = do
    d ← or_fail bad_data_rate (s.get_data_rate rmd.dr)
    times ← times_of rmd.gps_time
    ok (record {
      phy_payload = phy;
      tx_info = tx_info_of rmd.frequency d.modulation d;
      rx_info = record {
        gateway_id = gateway_id;
        time = times.1;
        time_since_gps_epoch = times.0;
        rssi = s.int32_of rmd.rssi;
        lora_snr = s.float64_of rmd.snr;
        channel = 0;
        rf_chain = 0;
        board = 0;
        antenna = 0;
        context = put_u64_be rmd.rctx ++ put_u64_be rmd.xtime;
        crc_status = crc_ok;
        fine_timestamp = none;
        uplink_id = [];
      };
    })
