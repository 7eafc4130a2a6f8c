-- ===== src/SemtechUdp/PfConfig/SameTests.antt =====
-- internal/backend/semtechudp/pf_config.go and internal/config/sx1301v1/sx1301v1.go: both test a channel against a radio in the
-- same way, where nothing wraps.
use chirpstack_gateway_bridg.Prelude.{
  leb, nat_key, bytes_key, ℕ, ◌+◌, ◌-◌, ◌/◌, ◌%◌, ◌^◌, ◌≤◌, ◌<◌, ◌≡◌, refl, sym, ap, ◌∙◌, ◌⊎◌, inl,
  inr, ◌&&◌, arith,
}
use chirpstack_gateway_bridg.Prelude.Int.{pos, int_sub, add_int, leb_ℤ}
use chirpstack_gateway_bridg.Platform.{Modulation, lora, fsk, other_modulation}
use chirpstack_gateway_bridg.Sx1301.Radios.{
  ModulationConfig, no_modulation_config, lora_modulation_config, fsk_modulation_config, Channel,
  bandwidth_of, channel_bandwidth, radio_bandwidth, channel_min, channel_max, half_radio,
  min_radio_center_freq, covers,
}
use chirpstack_gateway_bridg.Sx1301.Radios.Cover.{
  InRange, half_radio_bounds, channel_max_eq, channel_min_eq, center_eq,
}
use chirpstack_gateway_bridg.SemtechUdp.PfConfig.{
  bandwidth_in_hz, pf_bandwidth, pf_half_radio, pf_channel_min, pf_channel_max,
  pf_min_radio_center_freq, radio_covers,
}

-- A channel whose bandwidth is one of 32 bits, also in Hz, and that is in the range of the radios.
abbrev pub IsPlannable : Channel → Type 0
IsPlannable c = InRange c × (pf_bandwidth c < 2 ^ 32)

-- No frequency, or one around which nothing wraps.
abbrev pub IsPlanned : ℕ → Type 0
IsPlanned f = (f ≡ 0) ⊎ ((1000000 ≤ f) × (f + 1000000 < 2 ^ 32))

bandwidth_of-wrapped :
    (m : Modulation) (i : ModulationConfig)
    → bandwidth_in_hz m i < 2 ^ 32
    → bandwidth_of m i ≡ bandwidth_in_hz m i
unfolding bandwidth_of bandwidth_in_hz
bandwidth_of-wrapped lora (lora_modulation_config i) h = omega arith
bandwidth_of-wrapped lora (fsk_modulation_config i) h = refl
bandwidth_of-wrapped lora no_modulation_config h = refl
bandwidth_of-wrapped fsk (lora_modulation_config i) h = refl
bandwidth_of-wrapped fsk (fsk_modulation_config i) h = omega arith
bandwidth_of-wrapped fsk no_modulation_config h = refl
bandwidth_of-wrapped (other_modulation n) i h = refl

channel_bandwidth-pf_bandwidth :
    (c : Channel) → IsPlannable c → channel_bandwidth c ≡ pf_bandwidth c
unfolding channel_bandwidth pf_bandwidth
channel_bandwidth-pf_bandwidth c h = bandwidth_of-wrapped c.modulation c.modulation_config h.1

half_radio-pf_half_radio : (c : Channel) → IsPlannable c → half_radio c ≡ pf_half_radio c
unfolding half_radio pf_half_radio
half_radio-pf_half_radio c h = ap (λ b. radio_bandwidth b / 2) (channel_bandwidth-pf_bandwidth c h)

pf_channel_max-eq : (c : Channel) → IsPlannable c → pf_channel_max c ≡ pos (channel_max c)
unfolding pf_channel_max
pf_channel_max-eq c h = ap pos (
    ap (λ b. c.frequency + b / 2) (sym (channel_bandwidth-pf_bandwidth c h))
    ∙ sym (channel_max_eq c h.0))

int_sub-sum : (a b k : ℕ) → k + b ≡ a → int_sub a b ≡ pos k
int_sub-sum a b k h = ground arith

pf_channel_min-eq : (c : Channel) → IsPlannable c → pf_channel_min c ≡ pos (channel_min c)
unfolding pf_channel_min
pf_channel_min-eq c h = int_sub-sum c.frequency (pf_bandwidth c / 2) (channel_min c) (
    ap (λ b. channel_min c + b / 2) (sym (channel_bandwidth-pf_bandwidth c h))
    ∙ channel_min_eq c h.0)

pub pf_min_radio_center_freq-eq :
    (c : Channel) → IsPlannable c → pf_min_radio_center_freq c ≡ pos (min_radio_center_freq c)
unfolding pf_min_radio_center_freq
pf_min_radio_center_freq-eq c h =
    ap (λ z. add_int z (pf_half_radio c)) (pf_channel_min-eq c h)
    ∙ ap pos
        (ap (λ n. channel_min c + n) (sym (half_radio-pf_half_radio c h)) ∙ sym (center_eq c h.0))

pub center-IsPlanned :
    (c : Channel)
    → IsPlannable c
    → (1000000 ≤ min_radio_center_freq c) × (min_radio_center_freq c + 1000000 < 2 ^ 32)
center-IsPlanned c h =
    ground (arith, half_radio_bounds c, channel_min_eq c h.0, center_eq c h.0, h.0)

no_wrap : (f n : ℕ) → f + 1000000 < 2 ^ 32 → n ≤ 550000 → f + n ≡ (f + n) % 2 ^ 32
no_wrap f n h k = omega arith

-- The test of the placing loop.
pub above-eq :
    (c : Channel) (f : ℕ)
    → IsPlannable c
    → f + 1000000 < 2 ^ 32
    → leb_ℤ (pf_channel_max c) (add_int (pos f) (pf_half_radio c))
      ≡ leb (channel_max c) ((f + half_radio c) % 2 ^ 32)
above-eq c f h b =
    ap (λ z. leb_ℤ z (add_int (pos f) (pf_half_radio c))) (pf_channel_max-eq c h)
    ∙ ap (λ n. leb (channel_max c) (f + n)) (sym (half_radio-pf_half_radio c h))
    ∙ ap (leb (channel_max c)) (no_wrap f (half_radio c) b (half_radio_bounds c).1)

-- The tests for a radio that covers a channel.
pub covers-eq :
    (c : Channel) (f : ℕ) → IsPlannable c → IsPlanned f → radio_covers c (pos f) ≡ covers c f
unfolding radio_covers covers
covers-eq c f h s =
    ap
      (λ z.
        leb_ℤ (int_sub f (pf_half_radio c)) z
        && leb_ℤ (pf_channel_max c) (add_int (pos f) (pf_half_radio c)))
      (pf_channel_min-eq c h)
    ∙ ap
        (λ z.
          leb_ℤ (int_sub f (pf_half_radio c)) (pos (channel_min c))
          && leb_ℤ z (add_int (pos f) (pf_half_radio c)))
        (pf_channel_max-eq c h)
    ∙ ap (λ n. leb_ℤ (int_sub f n) (pos (channel_min c)) && leb (channel_max c) (f + n))
        (sym (half_radio-pf_half_radio c h))
    ∙ tests s
  where
    tests :
        IsPlanned f
        → leb_ℤ (int_sub f (half_radio c)) (pos (channel_min c))
            && leb (channel_max c) (f + half_radio c)
          ≡ leb ((f + 2 ^ 32 - half_radio c) % 2 ^ 32) (channel_min c)
            && leb (channel_max c) ((f + half_radio c) % 2 ^ 32)
    tests (inl zero_) =
        ground (arith, half_radio_bounds c, channel_min_eq c h.0, channel_max_eq c h.0, h.0)
    tests (inr k) =
        ground (arith, half_radio_bounds c, channel_min_eq c h.0, channel_max_eq c h.0, h.0)
