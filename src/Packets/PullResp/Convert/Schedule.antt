-- ===== src/Packets/PullResp/Convert/Schedule.antt =====
-- When a downlink is sent: push_data.go hands the concentrator's clock to the network server as the
-- context of an uplink, and pull_resp.go schedules the downlink by it.
use mathlib.Core.Path.{subst}
use chirpstack_gateway_bridg.Prelude.{
  ltb, Bool-cases, length, ok, >>=-eq-ok, ok-injective, Bytes, ℕ, ◌^◌, ◌<◌, ◌≡◌, refl, sym, ap, inl,
  inr, true, false, Option, none, some, arith,
}
use chirpstack_gateway_bridg.Prelude.Int.{ℤ}
use chirpstack_gateway_bridg.Platform.{
  Modulation, lora, fsk, other_modulation, Platform, ModulationInfo, Timing, immediately, delay,
  gps_epoch, other_timing, TimingInfo, delay_timing_info, gps_epoch_timing_info, DownlinkTxInfo,
  DownlinkFrame,
}
use chirpstack_gateway_bridg.Packets.PullResp.{Txpk, PullRespPacket}
use chirpstack_gateway_bridg.Packets.PullResp.Convert.{
  base_txpk, with_modulation, with_delay, with_gps_epoch, with_timing, convert,
  get_pull_resp_packet,
}

module _ (w : Platform) where
  -- The one field that says when to send agrees with the timing of the frame.
  abbrev pub IsScheduled : Timing → Txpk w.Float → Type 0
  IsScheduled immediately t = (t.imme ≡ true) × (t.tmst ≡ none) × (t.tmms ≡ none)
  IsScheduled delay t =
      (t.imme ≡ false) × ((n : ℕ) × (t.tmst ≡ some n) × (n < 2 ^ 32)) × (t.tmms ≡ none)
  IsScheduled gps_epoch t = (t.imme ≡ false) × (t.tmst ≡ none) × ((d : ℤ) × (t.tmms ≡ some d))
  IsScheduled (other_timing n) t = ⊥

  -- Before the timing is read nothing is scheduled, and the bytes are the frame's.
  record IsUnscheduled (phy : Bytes) (t : Txpk w.Float) : Type 0 where
    later : t.imme ≡ false
    no_tmst : t.tmst ≡ none
    no_tmms : t.tmms ≡ none
    carries : t.payload ≡ phy

  with_modulation-IsUnscheduled :
      (m : Modulation) (i : ModulationInfo) (phy : Bytes) (t t' : Txpk w.Float)
      → IsUnscheduled phy t
      → with_modulation w m i t ≡ ok t'
      → IsUnscheduled phy t'
  unfolding with_modulation
  with_modulation-IsUnscheduled lora i phy t t' u e = ground arith
  with_modulation-IsUnscheduled fsk i phy t t' u e = ground arith
  with_modulation-IsUnscheduled (other_modulation n) i phy t t' u e = ground arith

  abbrev pub Scheduled : Timing → Bytes → Txpk w.Float → Type 0
  Scheduled timing phy t = IsScheduled timing t × (t.payload ≡ phy)

  with_delay-IsScheduled :
      (d : Option ℤ) (phy context : Bytes) (t t' : Txpk w.Float)
      → IsUnscheduled phy t
      → with_delay w d context t ≡ ok t'
      → Scheduled delay phy t'
  unfolding with_delay
  with_delay-IsScheduled none phy context t t' u e = cc
  with_delay-IsScheduled (some d) phy context t t' u e =
      elim (Bool-cases (ltb (length context) 4)) [
        | inl short ↦ cc (rw short at e)
        | inr long ↦
            subst (Scheduled delay phy) (ok-injective (rw long at e))
              ((u.later, (_, refl, omega arith), u.no_tmms), u.carries)
      ]

  with_gps_epoch-IsScheduled :
      (d : Option ℤ) (phy : Bytes) (t t' : Txpk w.Float)
      → IsUnscheduled phy t
      → with_gps_epoch w d t ≡ ok t'
      → Scheduled gps_epoch phy t'
  unfolding with_gps_epoch
  with_gps_epoch-IsScheduled none phy t t' u e = cc
  with_gps_epoch-IsScheduled (some d) phy t t' u e =
      subst (Scheduled gps_epoch phy) (ok-injective e) ((u.later, u.no_tmst, (_, refl)), u.carries)

  with_timing-IsScheduled :
      (timing : Timing) (i : TimingInfo w.Duration) (phy context : Bytes) (t t' : Txpk w.Float)
      → IsUnscheduled phy t
      → with_timing w timing i context t ≡ ok t'
      → Scheduled timing phy t'
  unfolding with_timing
  with_timing-IsScheduled immediately i phy context t t' u e = ground arith
  with_timing-IsScheduled delay (delay_timing_info d) phy context t t' u e =
      with_delay-IsScheduled (w.duration d) phy context t t' u e
  with_timing-IsScheduled delay i phy context t t' u e = cc
  with_timing-IsScheduled gps_epoch (gps_epoch_timing_info d) phy context t t' u e =
      with_gps_epoch-IsScheduled (w.duration d) phy t t' u e
  with_timing-IsScheduled gps_epoch i phy context t t' u e = cc
  with_timing-IsScheduled (other_timing n) i phy context t t' u e = cc

  convert-IsScheduled :
      (version token : ℕ) (info : Option (DownlinkTxInfo w.Duration)) (phy : Bytes)
      (p : PullRespPacket w.Float)
      → convert w version token info phy ≡ ok p
      → (i : DownlinkTxInfo w.Duration) × (info ≡ some i)
        × Scheduled i.timing phy p.payload.txpk
        × (p.protocol_version ≡ version)
        × (p.random_token ≡ token)
  unfolding convert
  convert-IsScheduled version token none phy p e = cc
  convert-IsScheduled version token (some i) phy p e =
      let (t, modulated, rest) =
        >>=-eq-ok (with_modulation w i.modulation i.modulation_info (base_txpk w i phy)) _ e in
      let (t', timed, made) = >>=-eq-ok (with_timing w i.timing i.timing_info i.context t) _ rest in
      let base : IsUnscheduled phy (base_txpk w i phy) = record {
        later = refl;
        no_tmst = refl;
        no_tmms = refl;
        carries = refl;
      } in
      let u = with_modulation-IsUnscheduled i.modulation i.modulation_info phy _ t base modulated in
      let s = with_timing-IsScheduled i.timing i.timing_info phy i.context t t' u timed in
      let q = ok-injective made in
      (
        i,
        refl,
        subst (λ x. Scheduled i.timing phy x.payload.txpk) q s,
        ap (λ x. x.protocol_version) (sym q),
        ap (λ x. x.random_token) (sym q),
      )

  -- A PULL_RESP that is made from a frame has one schedule, that of the frame's timing; it carries the
  -- frame's bytes, and its version and token are the given ones.
  pub get_pull_resp_packet-IsScheduled :
      (version token : ℕ) (frame : DownlinkFrame w.Duration) (p : PullRespPacket w.Float)
      → get_pull_resp_packet w version token frame ≡ ok p
      → (i : DownlinkTxInfo w.Duration) × (frame.tx_info ≡ some i)
        × Scheduled i.timing frame.phy_payload p.payload.txpk
        × (p.protocol_version ≡ version)
        × (p.random_token ≡ token)
  unfolding get_pull_resp_packet
  get_pull_resp_packet-IsScheduled version token frame p e =
      convert-IsScheduled version token frame.tx_info frame.phy_payload p e
