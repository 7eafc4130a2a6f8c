-- ===== src/Packets/PullResp/Convert.antt =====
-- `GetPullRespPacket` of internal/backend/semtechudp/packets/pull_resp.go.
pub mod Schedule
pub mod Clock
use chirpstack_gateway_bridg.Prelude.{
  ltb, ◌==◌, if◌then◌else◌, length, take, Result, ok, err, ◌>>=◌, Bytes, u_be, ℕ, ◌+◌, ◌/◌, ◌%◌,
  ◌^◌, true, false, Option, none, some, [],
}
use chirpstack_gateway_bridg.Prelude.Int.{ℤ, quotient, wrap}
use chirpstack_gateway_bridg.Platform.{
  Modulation, lora, fsk, other_modulation, Platform, LoraModulationInfo, FskModulationInfo,
  ModulationInfo, get_lora_info, get_fsk_info, Timing, immediately, delay, gps_epoch, other_timing,
  TimingInfo, delay_timing_info, gps_epoch_timing_info, DownlinkTxInfo, DownlinkFrame,
}
use chirpstack_gateway_bridg.Packets.DataRate.{lora_data_rate}
use chirpstack_gateway_bridg.Packets.PullResp.{Txpk, PullRespPacket}

-- `nil_tx_info` is the panic at `frame.TxInfo.Frequency` where the frame has no tx-info.
pub data ConvertError : Type 0 where
  nil_tx_info lora_info_is_nil fsk_info_is_nil delay_info_is_nil gps_info_is_nil : ConvertError
  bad_duration unexpected_timing : ConvertError
  short_context : ℕ → ConvertError

module _ (w : Platform) where
  open w use {Float, Duration, hz_to_mhz, duration, modulation_name}

  -- The fields that every packet has.
  base_txpk : DownlinkTxInfo Duration → Bytes → Txpk Float
  base_txpk i phy = record {
    imme = false;
    rfch = 0;
    powe = wrap 8 i.power;
    ant = i.antenna % 256;
    brd = i.board;
    tmst = none;
    tmms = none;
    freq = hz_to_mhz i.frequency;
    modu = modulation_name i.modulation;
    dat_r = record { lora = []; fsk = 0 };
    cod_r = [];
    fdev = 0;
    ncrc = false;
    ipol = false;
    prea = 0;
    size = length phy % 65536;
    payload = phy;
  }

  with_lora : Option LoraModulationInfo → Txpk Float → Result ConvertError (Txpk Float)
  with_lora none t = err lora_info_is_nil
  with_lora (some m) t = ok (record t {
    dat_r = record { lora = lora_data_rate m.spreading_factor m.bandwidth; fsk = t.dat_r.fsk };
    cod_r = m.code_rate;
    ipol = m.polarization_inversion;
  })

  -- Without a deviation it is half the data-rate.
  with_fsk : Option FskModulationInfo → Txpk Float → Result ConvertError (Txpk Float)
  with_fsk none t = err fsk_info_is_nil
  with_fsk (some m) t =
      let deviation = m.frequency_deviation % 65536 in
      ok (record t {
        dat_r = record { lora = t.dat_r.lora; fsk = m.datarate };
        fdev = if deviation == 0 then m.datarate / 2 % 65536 else deviation;
      })

  with_modulation : Modulation → ModulationInfo → Txpk Float → Result ConvertError (Txpk Float)
  unfolding with_lora with_fsk
  with_modulation lora i t = with_lora (get_lora_info i) t
  with_modulation fsk i t = with_fsk (get_fsk_info i) t
  with_modulation (other_modulation n) i t = ok t

  -- Microseconds on the clock of the concentrator, which wraps at 32 bits.
  with_delay : Option ℤ → Bytes → Txpk Float → Result ConvertError (Txpk Float)
  with_delay none context t = err bad_duration
  with_delay (some d) context t =
      if ltb (length context) 4
      then err (short_context (length context))
      else ok
          (record t { tmst = some ((u_be (take 4 context) + wrap 32 (quotient d 1000)) % 2 ^ 32) })

  with_gps_epoch : Option ℤ → Txpk Float → Result ConvertError (Txpk Float)
  with_gps_epoch none t = err bad_duration
  with_gps_epoch (some d) t = ok (record t { tmms = some (quotient d 1000000) })

  -- The parameters have to be those of the timing.
  with_timing : Timing → TimingInfo Duration → Bytes → Txpk Float → Result ConvertError (Txpk Float)
  unfolding with_delay with_gps_epoch
  with_timing immediately i context t = ok (record t { imme = true })
  with_timing delay (delay_timing_info d) context t = with_delay (duration d) context t
  with_timing delay i context t = err delay_info_is_nil
  with_timing gps_epoch (gps_epoch_timing_info d) context t = with_gps_epoch (duration d) t
  with_timing gps_epoch i context t = err gps_info_is_nil
  with_timing (other_timing n) i context t = err unexpected_timing

  convert :
      ℕ → ℕ → Option (DownlinkTxInfo Duration) → Bytes → Result ConvertError (PullRespPacket Float)
  unfolding base_txpk with_modulation with_timing
  convert version token none phy = err nil_tx_info
  convert version token (some i) phy = do
    t ← with_modulation i.modulation i.modulation_info (base_txpk i phy)
    t' ← with_timing i.timing i.timing_info i.context t
    ok (record { protocol_version = version; random_token = token; payload = record { txpk = t' } })

  -- `GetPullRespPacket`
  unfoldable pub get_pull_resp_packet :
      ℕ → ℕ → DownlinkFrame Duration → Result ConvertError (PullRespPacket Float)
  unfolding convert
  get_pull_resp_packet version token frame = convert version token frame.tx_info frame.phy_payload
