-- ===== src/Basicstation/Structs/Downlink/Context.antt =====
-- radio_meta_data.go and downlink_message.go: what a downlink takes over from the uplink that it answers.
use mathlib.Core.Path.{subst}
use chirpstack_gateway_bridg.Prelude.{
  ok, >>=-eq-ok, ok-injective, or_fail, Bytes, AreBytes, u_be, ℕ, ◌^◌, ◌<◌, ◌≡◌, refl, sym, ap, ◌∙◌,
  some, ◌++◌, arith,
}
use chirpstack_gateway_bridg.Prelude.Int.{ℤ}
use chirpstack_gateway_bridg.Platform.{
  Platform, Timing, immediately, delay, gps_epoch, other_timing, TimingInfo, no_timing_info,
  delay_timing_info, gps_epoch_timing_info, DownlinkTxInfo, DownlinkFrame, UplinkFrame,
}
use chirpstack_gateway_bridg.Basicstation.Structs.{
  Station, RadioMetaData, bad_data_rate, put_u64_be, times_of, set_radio_meta_data_to_proto,
}
use chirpstack_gateway_bridg.Basicstation.Structs.Hex.{hex_decode, hex_decode-hex_encode}
use chirpstack_gateway_bridg.Basicstation.Structs.Downlink.{
  DownlinkMessage, bad_duration, base_message, with_context, data_rate_index, with_class_timing,
  message_of, downlink_frame_from_proto,
}

u_be-put_u64_be : (n : ℕ) → n < 2 ^ 64 → u_be (put_u64_be n) ≡ n
u_be-put_u64_be n h = omega arith

-- The fields that the timing leaves.
abbrev SameOrigin : DownlinkMessage → DownlinkMessage → Type 0
SameOrigin m n = (n.rctx ≡ m.rctx) × (n.xtime ≡ m.xtime) × (n.pdu ≡ m.pdu) × (n.diid ≡ m.diid)

module _ {w : Platform} (s : Station w) where
  set_radio-context :
      (id phy : Bytes) (r : RadioMetaData s) (f : UplinkFrame w)
      → set_radio_meta_data_to_proto s id r phy ≡ ok f
      → f.rx_info.context ≡ put_u64_be r.rctx ++ put_u64_be r.xtime
  unfolding set_radio_meta_data_to_proto
  set_radio-context id phy r f e =
      let (d, one, rest) = >>=-eq-ok (or_fail bad_data_rate (s.get_data_rate r.dr)) _ e in
      let (t, two, last) = >>=-eq-ok (times_of s r.gps_time) _ rest in
      ap (λ g. g.rx_info.context) (sym (ok-injective last))

  with_class_timing-SameOrigin :
      (t : Timing) (i : TimingInfo w.Duration) (f : ℕ) (d : ℤ) (m n : DownlinkMessage)
      → with_class_timing s t i f d m ≡ ok n
      → SameOrigin m n
  unfolding with_class_timing
  with_class_timing-SameOrigin immediately i f d m n e =
      subst (SameOrigin m) (ok-injective e) (refl, refl, refl, refl)
  with_class_timing-SameOrigin delay (delay_timing_info t) f d m n e =
      let (k, one, last) = >>=-eq-ok (or_fail bad_duration (w.duration t)) _ e in
      subst (SameOrigin m) (ok-injective last) (refl, refl, refl, refl)
  with_class_timing-SameOrigin delay no_timing_info f d m n e = cc
  with_class_timing-SameOrigin delay (gps_epoch_timing_info t) f d m n e = cc
  with_class_timing-SameOrigin gps_epoch (gps_epoch_timing_info t) f d m n e =
      let (k, one, last) = >>=-eq-ok (or_fail bad_duration (w.duration t)) _ e in
      subst (SameOrigin m) (ok-injective last) (refl, refl, refl, refl)
  with_class_timing-SameOrigin gps_epoch no_timing_info f d m n e = cc
  with_class_timing-SameOrigin gps_epoch (delay_timing_info t) f d m n e = cc
  with_class_timing-SameOrigin (other_timing k) i f d m n e = cc

  with_context-both :
      (x y : ℕ) (m n : DownlinkMessage)
      → x < 2 ^ 64
      → y < 2 ^ 64
      → with_context (put_u64_be x ++ put_u64_be y) m ≡ ok n
      → (n.rctx ≡ some x) × (n.xtime ≡ some y) × (n.pdu ≡ m.pdu) × (n.diid ≡ m.diid)
  unfolding with_context
  with_context-both x y m n hx hy e =
      subst (λ k. (k.rctx ≡ some x) × (k.xtime ≡ some y) × (k.pdu ≡ m.pdu) × (k.diid ≡ m.diid))
        (ok-injective e)
        (ap some (u_be-put_u64_be x hx), ap some (u_be-put_u64_be y hy), refl, refl)

  -- A downlink with the context of an uplink, whose radio context and clock are 64-bit numbers, becomes a message
  -- with the same radio context and clock, with the bytes of the downlink in hexadecimal digits, and with its token.
  pub downlink_after_uplink :
      (id phy : Bytes) (r : RadioMetaData s) (f : UplinkFrame w) (frame : DownlinkFrame w.Duration)
      (i : DownlinkTxInfo w.Duration) (m : DownlinkMessage)
      → r.rctx < 2 ^ 64
      → r.xtime < 2 ^ 64
      → AreBytes frame.phy_payload
      → set_radio_meta_data_to_proto s id r phy ≡ ok f
      → frame.tx_info ≡ some i
      → i.context ≡ f.rx_info.context
      → downlink_frame_from_proto s frame ≡ ok m
      → (m.rctx ≡ some r.rctx)
        × (m.xtime ≡ some r.xtime)
        × (hex_decode m.pdu ≡ some frame.phy_payload)
        × (m.diid ≡ frame.token)
  unfolding downlink_frame_from_proto message_of base_message
  downlink_after_uplink id phy r f frame i m hr hx hb up has same e =
      let shown = subst (λ o. message_of s frame.token frame.phy_payload o ≡ ok m) has e in
      let (m1, one, rest) =
        >>=-eq-ok (with_context i.context (base_message frame.token frame.phy_payload)) _ shown in
      let (d, two, last) = >>=-eq-ok (data_rate_index s i.modulation i.modulation_info) _ rest in
      let (a, b, c, t) =
        with_context-both r.rctx r.xtime (base_message frame.token frame.phy_payload) m1 hr hx (
          subst (λ x. with_context x (base_message frame.token frame.phy_payload) ≡ ok m1)
            (same ∙ set_radio-context id phy r f up) one) in
      let (a', b', c', t') =
        with_class_timing-SameOrigin i.timing i.timing_info i.frequency d m1 m last in
      (a' ∙ a, b' ∙ b, ap hex_decode (c' ∙ c) ∙ hex_decode-hex_encode frame.phy_payload hb, t' ∙ t)
