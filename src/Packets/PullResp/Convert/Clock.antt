-- ===== src/Packets/PullResp/Convert/Clock.antt =====
-- When a downlink is sent after an uplink: push_data.go hands the concentrator's clock to the network
-- server as the context of the uplink, and pull_resp.go schedules the downlink by that context.
use mathlib.Core.Path.{subst₂}
use chirpstack_gateway_bridg.Prelude.{
  ok, >>=-eq-ok, ok-injective, Bytes, put_u32_be, u_be, ℕ, ◌+◌, ◌/◌, ◌%◌, ◌^◌, ◌<◌, ◌≡◌, sym, ap,
  ◌∙◌, Bool, Option, some, arith,
}
use chirpstack_gateway_bridg.Prelude.Int.{pos}
use chirpstack_gateway_bridg.Platform.{
  Platform, Timing, delay, TimingInfo, delay_timing_info, DownlinkTxInfo, DownlinkFrame,
  UplinkFrame,
}
use chirpstack_gateway_bridg.Packets.PushData.{Rxpk}
use chirpstack_gateway_bridg.Packets.PushData.Frames.{get_uplink_frame}
use chirpstack_gateway_bridg.Packets.PushData.Frames.Order.{get_uplink_frame-context}
use chirpstack_gateway_bridg.Packets.PullResp.{Txpk, PullRespPacket}
use chirpstack_gateway_bridg.Packets.PullResp.Convert.{
  base_txpk, with_modulation, with_delay, with_timing, convert, get_pull_resp_packet,
}

u_be-put_u32_be : (n : ℕ) → n < 2 ^ 32 → u_be (put_u32_be n) ≡ n
u_be-put_u32_be n h = omega arith

module _ (w : Platform) where
  with_delay_tmst :
      (n clock : ℕ) (context : Bytes) (t t' : Txpk w.Float)
      → clock < 2 ^ 32
      → context ≡ put_u32_be clock
      → with_delay w (some (pos n)) context t ≡ ok t'
      → t'.tmst ≡ some ((clock + n / 1000) % 2 ^ 32)
  unfolding with_delay
  with_delay_tmst n clock context t t' h c e = ground (arith, u_be-put_u32_be clock h)

  with_timing_tmst :
      (timing : Timing) (info : TimingInfo w.Duration) (d : Option w.Duration) (n clock : ℕ)
      (context : Bytes) (t t' : Txpk w.Float)
      → clock < 2 ^ 32
      → context ≡ put_u32_be clock
      → timing ≡ delay
      → info ≡ delay_timing_info d
      → w.duration d ≡ some (pos n)
      → with_timing w timing info context t ≡ ok t'
      → t'.tmst ≡ some ((clock + n / 1000) % 2 ^ 32)
  with_timing_tmst timing info d n clock context t t' h c et ei ed e =
      let e' : with_timing w delay (delay_timing_info d) context t ≡ ok t' =
        subst₂ (λ a b. with_timing w a b context t ≡ ok t') et ei e in
      with_delay_tmst n clock context t t' h c
        (ap (λ o. with_delay w o context t) (sym ed) ∙ unfold with_timing in e')

  convert_tmst :
      (version token n clock : ℕ) (i : DownlinkTxInfo w.Duration) (d : Option w.Duration)
      (phy : Bytes) (p : PullRespPacket w.Float)
      → clock < 2 ^ 32
      → i.context ≡ put_u32_be clock
      → i.timing ≡ delay
      → i.timing_info ≡ delay_timing_info d
      → w.duration d ≡ some (pos n)
      → convert w version token (some i) phy ≡ ok p
      → p.payload.txpk.tmst ≡ some ((clock + n / 1000) % 2 ^ 32)
  unfolding convert
  convert_tmst version token n clock i d phy p h c et ei ed e =
      let (t, modulated, rest) =
        >>=-eq-ok (with_modulation w i.modulation i.modulation_info (base_txpk w i phy)) _ e in
      let (t', timed, made) = >>=-eq-ok (with_timing w i.timing i.timing_info i.context t) _ rest in
      ap (λ x. x.payload.txpk.tmst) (sym (ok-injective made))
      ∙ with_timing_tmst i.timing i.timing_info d n clock i.context t t' h c et ei ed timed

  -- A downlink that is to follow an uplink frame by n nanoseconds, with that frame's context, is sent
  -- when the 32-bit clock of the concentrator shows the time of the uplink and n / 1000 microseconds,
  -- also where the clock wraps in between.
  pub tmst_after_uplink :
      (r : Rxpk w) (mac : Bytes) (fake : Bool) (now : w.Time) (f : UplinkFrame w)
      (version token n : ℕ) (frame : DownlinkFrame w.Duration) (i : DownlinkTxInfo w.Duration)
      (d : Option w.Duration) (p : PullRespPacket w.Float)
      → r.tmst < 2 ^ 32
      → get_uplink_frame w mac r fake now ≡ ok f
      → frame.tx_info ≡ some i
      → i.context ≡ f.rx_info.context
      → i.timing ≡ delay
      → i.timing_info ≡ delay_timing_info d
      → w.duration d ≡ some (pos n)
      → get_pull_resp_packet w version token frame ≡ ok p
      → p.payload.txpk.tmst ≡ some ((r.tmst + n / 1000) % 2 ^ 32)
  unfolding get_pull_resp_packet
  tmst_after_uplink r mac fake now f version token n frame i d p h up has c et ei ed e =
      convert_tmst version token n r.tmst i d frame.phy_payload p h
        (c ∙ get_uplink_frame-context mac r fake now f up) et ei ed
        (ap (λ o. convert w version token o frame.phy_payload) (sym has) ∙ e)
