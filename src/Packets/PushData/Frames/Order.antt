-- ===== src/Packets/PushData/Frames/Order.antt =====
-- push_data.go: which frames `GetUplinkFrames` returns, in which order.
use chirpstack_gateway_bridg.Prelude.{
  if◌then◌else◌, ok, >>=-eq-ok, ok-injective, Bytes, put_u32_be, ℕ, suc, ◌≡◌, sym, ap, Bool, ◌||◌,
  Option, none, some, List, [], ◌∷◌, ◌++◌, map,
}
use chirpstack_gateway_bridg.Platform.{Platform, CrcStatus, FineTimestamp, UplinkFrame}
use chirpstack_gateway_bridg.Prelude.Int.{ℤ}
use chirpstack_gateway_bridg.Packets.PushData.{RSig, Rxpk}
use chirpstack_gateway_bridg.Packets.PushData.Frames.{
  crc_status_of, is_crc_ok, lora_modulation, frame_time, get_uplink_frame,
}
use chirpstack_gateway_bridg.Packets.DataRate.{find_data_rate}

-- The signal of a frame: antenna, channel, RSSI, SNR, and encrypted timestamp.
abbrev pub Signal : Platform → Type 0
Signal w = ℕ × ℕ × ℤ × w.Float × Option FineTimestamp

-- What a frame shows of the packet that it was made from.
abbrev pub Shown : Platform → Type 0
Shown w = Bytes × CrcStatus × Signal w

abbrev pub timestamp_of : ℕ → Bytes → Option FineTimestamp
timestamp_of key [] = none
timestamp_of key (b ∷ bs) = some (record { encrypted_ns = b ∷ bs; aes_key_index = key })

module _ {w : Platform} where
  abbrev pub shows : UplinkFrame w → Shown w
  shows f =
      let rx = f.rx_info in
      (
        f.phy_payload,
        rx.crc_status,
        (rx.antenna, rx.channel, rx.rssi, rx.lora_snr, rx.fine_timestamp),
      )

  abbrev pub shown : Rxpk w → Signal w → Shown w
  shown r signal = (r.payload, crc_status_of r.stat, signal)

  -- A packet without antennas has one signal, on antenna 0, without a timestamp.
  abbrev pub own_signal : Rxpk w → Signal w
  own_signal r = (0, r.channel, r.rssi, r.lsnr, none)

  abbrev pub antenna_signal : Rxpk w → RSig w → Signal w
  antenna_signal r s = (s.ant, s.channel, s.rssic, s.lsnr, timestamp_of r.aesk s.etime)

  -- One for each antenna, with its signal, and one for a packet without antennas.
  abbrev pub copies : Rxpk w → List (RSig w) → List (Shown w)
  copies r [] = shown r (own_signal r) ∷ []
  copies r (s ∷ ss) = map (λ a. shown r (antenna_signal r a)) (s ∷ ss)

  -- The packets with a good CRC, or all if the check is off, in the order of the payload.
  abbrev pub expected : Bool → List (Rxpk w) → List (Shown w)
  expected skip [] = []
  expected skip (r ∷ rs) =
      (if skip || is_crc_ok r.stat then copies r r.rsig else []) ++ expected skip rs

  -- Each frame behind n others has the identifier that the n-th draw gave.
  abbrev pub Numbered : (ℕ → Option Bytes) → ℕ → List (UplinkFrame w) → Type 0
  Numbered uuid n [] = Unit
  Numbered uuid n (f ∷ fs) = (uuid n ≡ some f.rx_info.uplink_id) × Numbered uuid (suc n) fs

  -- The context of a frame is the concentrator's clock.
  pub get_uplink_frame-context :
      (mac : Bytes) (r : Rxpk w) (fake : Bool) (now : w.Time) (f : UplinkFrame w)
      → get_uplink_frame w mac r fake now ≡ ok f
      → f.rx_info.context ≡ put_u32_be r.tmst
  unfolding get_uplink_frame
  get_uplink_frame-context mac r fake now f e =
      let (ts, timed, rest) = >>=-eq-ok (frame_time w r.time fake now) _ e in
      let (m, modulated, done) =
        >>=-eq-ok (lora_modulation r.dat_r.lora r.cod_r (find_data_rate r.dat_r.lora)) _ rest in
      ap (λ g. g.rx_info.context) (sym (ok-injective done))
