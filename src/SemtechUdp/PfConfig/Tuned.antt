-- ===== src/SemtechUdp/PfConfig/Tuned.antt =====
-- `getGatewayConfig` of internal/backend/semtechudp/pf_config.go: the frequencies on which the gateway listens.
use mathlib.Core.Path.{subst}
use chirpstack_gateway_bridg.Prelude.{
  leb, ◌==◌, length, set_at, fill, set_from-fill, ok, >>=-eq-ok, ok-injective, guard-eq-ok, nat_key,
  bytes_key, ℕ, suc, ◌≤◌, ◌≡◌, refl, sym, ap, ◌∙◌, Bool, true, false, not, Option, none, some, List,
  [], ◌∷◌, map, arith,
}
use chirpstack_gateway_bridg.Prelude.Int.{ℤ, add_ℤ-sub_from}
use chirpstack_gateway_bridg.Platform.{Modulation, lora, fsk, other_modulation}
use chirpstack_gateway_bridg.Sx1301.Radios.{
  LoraModulationConfig, FskModulationConfig, get_lora_config, get_fsk_config, Channel,
}
use chirpstack_gateway_bridg.Sx1301.Heard.{
  multi_sf_of, single_sf_of, on_lora, is_multi_sf, is_single_sf, multi_sf_frequencies,
  single_sf_frequency, tuned_by, map-set_at, Heard, hear, hear_all, hear_all-eq, hear_all-count,
}
use chirpstack_gateway_bridg.SemtechUdp.PfConfig.{
  MultiSfChannelConfig, LoraStdChannelConfig, GatewayConfig, fsk_already_configured,
  lora_std_already_configured, too_many_multi_sf_channels, channel_count, place_channels,
  covering_radio, radio_freq, fsk_assigned, multi_sf_config, std_assigned, multi_sf_assigned,
  factors_assigned, lora_assigned, assigned, assign_channels, radios_only, unset_radios,
  get_gateway_config,
}

abbrev pub pf_multi_sf : (ℕ → ℤ) → MultiSfChannelConfig → Option ℤ
pf_multi_sf radio e = tuned_by radio e.enable e.radio e.if_freq

abbrev pub pf_lora_std : (ℕ → ℤ) → LoraStdChannelConfig → Option ℤ
pf_lora_std radio e = tuned_by radio e.enable e.radio e.if_freq

abbrev pf_heard : (ℕ → ℤ) → GatewayConfig × ℕ → Heard
pf_heard radio (gc, n) =
    (pf_lora_std radio gc.lora_std_channel_config, map (pf_multi_sf radio) gc.multi_sf_channels, n)

-- One channel, with the two tests of it: the radios stay, what is heard follows, and the multi-SF channels are eight
-- at most.
abbrev Follows : Bool → Bool → ℕ → GatewayConfig × ℕ → GatewayConfig × ℕ → Type 0
Follows multi single f s t =
    (t.0.radios ≡ s.0.radios)
    × (pf_heard (radio_freq s.0.radios) t
        ≡ hear multi single f (pf_heard (radio_freq s.0.radios) s))
    × (s.1 ≤ channel_count → t.1 ≤ channel_count)

multi_sf_assigned-Follows :
    (c : Channel) (r : ℕ) (s t : GatewayConfig × ℕ)
    → multi_sf_assigned c r s ≡ ok t
    → Follows true false c.frequency s t
unfolding multi_sf_assigned multi_sf_config
multi_sf_assigned-Follows c r (gc, n) t e =
    let (less, k) = guard-eq-ok (leb channel_count n) too_many_multi_sf_channels _ e in
    subst (Follows true false c.frequency (gc, n)) (ok-injective k) (
      refl,
      ap (λ m. (pf_lora_std (radio_freq gc.radios) gc.lora_std_channel_config, m, suc n))
          (map-set_at (pf_multi_sf (radio_freq gc.radios)) n
              (multi_sf_config c r (radio_freq gc.radios r)) gc.multi_sf_channels
            ∙ ap
                (λ f.
                  set_at n (some f) (map (pf_multi_sf (radio_freq gc.radios)) gc.multi_sf_channels))
                (add_ℤ-sub_from c.frequency (radio_freq gc.radios r))),
      λ h. ground arith,
    )

std_assigned-Follows :
    (c : Channel) (r : ℕ) (s t : GatewayConfig × ℕ) (sf : ℕ)
    → std_assigned c r s sf ≡ ok t
    → Follows false true c.frequency s t
unfolding std_assigned
std_assigned-Follows c r (gc, n) t sf e =
    let (first, k) =
      guard-eq-ok gc.lora_std_channel_config.enable lora_std_already_configured _ e in
    subst (Follows false true c.frequency (gc, n)) (ok-injective k) (
      refl,
      ap (λ f. (some f, map (pf_multi_sf (radio_freq gc.radios)) gc.multi_sf_channels, n))
          (add_ℤ-sub_from c.frequency (radio_freq gc.radios r)),
      λ h. h,
    )

factors_assigned-Follows :
    (c : Channel) (r : ℕ) (s t : GatewayConfig × ℕ) (xs : List ℕ)
    → factors_assigned c r s xs ≡ ok t
    → Follows (not (length xs == 1)) (length xs == 1) c.frequency s t
unfolding factors_assigned
factors_assigned-Follows c r s t [] e = multi_sf_assigned-Follows c r s t e
factors_assigned-Follows c r s t (x ∷ []) e = std_assigned-Follows c r s t x e
factors_assigned-Follows c r s t (x ∷ y ∷ xs) e =
    subst (λ b. Follows (not b) b c.frequency s t) (sym (two_or_more (length xs)))
      (multi_sf_assigned-Follows c r s t e)
  where
    two_or_more : (k : ℕ) → (suc (suc k) == 1) ≡ false
    two_or_more k = ground arith

lora_assigned-Follows :
    (c : Channel) (r : ℕ) (s t : GatewayConfig × ℕ) (i : Option LoraModulationConfig)
    → lora_assigned c r s i ≡ ok t
    → Follows (multi_sf_of i) (single_sf_of i) c.frequency s t
unfolding lora_assigned
lora_assigned-Follows c r s t none e = cc
lora_assigned-Follows c r s t (some i) e = factors_assigned-Follows c r s t i.spreading_factors e

fsk_assigned-Follows :
    (c : Channel) (r n f : ℕ) (gc gc' : GatewayConfig) (i : Option FskModulationConfig)
    → fsk_assigned c r gc i ≡ ok gc'
    → Follows false false f (gc, n) (gc', n)
unfolding fsk_assigned
fsk_assigned-Follows c r n f gc gc' none e = cc
fsk_assigned-Follows c r n f gc gc' (some i) e =
    let (first, k) = guard-eq-ok gc.fsk_channel_config.enable fsk_already_configured _ e in
    subst (λ g. Follows false false f (gc, n) (g, n)) (ok-injective k) (refl, refl, λ h. h)

assigned-Follows :
    (c : Channel) (r : ℕ) (s t : GatewayConfig × ℕ) (m : Modulation)
    → assigned c r s m ≡ ok t
    → Follows
        (on_lora (multi_sf_of (get_lora_config c.modulation_config)) m)
        (on_lora (single_sf_of (get_lora_config c.modulation_config)) m)
        c.frequency
        s
        t
unfolding assigned
assigned-Follows c r s t lora e =
    lora_assigned-Follows c r s t (get_lora_config c.modulation_config) e
assigned-Follows c r (gc, n) t fsk e =
    let (gc', p, k) =
      >>=-eq-ok (fsk_assigned c r gc (get_fsk_config c.modulation_config)) (λ gc'. ok (gc', n)) e in
    subst (Follows false false c.frequency (gc, n)) (ok-injective k)
      (fsk_assigned-Follows c r n c.frequency gc gc' (get_fsk_config c.modulation_config) p)
assigned-Follows c r s t (other_modulation m) e = cc

-- All channels, from any state.
abbrev FollowsAll : List Channel → GatewayConfig × ℕ → GatewayConfig × ℕ → Type 0
FollowsAll cs s t =
    (t.0.radios ≡ s.0.radios)
    × (pf_heard (radio_freq s.0.radios) t ≡ hear_all cs (pf_heard (radio_freq s.0.radios) s))
    × (s.1 ≤ channel_count → t.1 ≤ channel_count)

FollowsAll-cons :
    (c : Channel) (cs : List Channel) (s m t : GatewayConfig × ℕ)
    → Follows (is_multi_sf c) (is_single_sf c) c.frequency s m
    → FollowsAll cs m t
    → FollowsAll (c ∷ cs) s t
FollowsAll-cons c cs s m t (p, q, b) (p', q', b') = (
  p' ∙ p,
  subst (λ radios. pf_heard (radio_freq radios) t ≡ hear_all cs (pf_heard (radio_freq radios) m)) p
        q'
      ∙ ap (hear_all cs) q,
  λ h. b' (b h),
)

assign_channels-FollowsAll :
    (cs : List Channel) (s t : GatewayConfig × ℕ) → assign_channels cs s ≡ ok t → FollowsAll cs s t
unfolding assign_channels
assign_channels-FollowsAll [] s t e = subst (FollowsAll [] s) (ok-injective e) (refl, refl, λ h. h)
assign_channels-FollowsAll (c ∷ cs) (gc, n) t e =
    let r = covering_radio c 0 gc.radios in
    let (m, p, k) = >>=-eq-ok (assigned c r (gc, n) c.modulation) (λ s. assign_channels cs s) e in
    FollowsAll-cons c cs (gc, n) m t (assigned-Follows c r (gc, n) m c.modulation p)
      (assign_channels-FollowsAll cs m t k)

pub get_gateway_config-radios :
    (sort : List Channel → List Channel) (channels : List Channel) (gc : GatewayConfig)
    → get_gateway_config sort channels ≡ ok gc
    → gc.radios ≡ place_channels (sort channels) unset_radios
unfolding get_gateway_config
get_gateway_config-radios sort channels gc e =
    let cs = sort channels in
    let radios = place_channels cs unset_radios in
    let (last, p, k) =
      >>=-eq-ok (assign_channels cs (radios_only radios, 0)) (λ last. ok last.0) e in
    ap (λ g. g.radios) (sym (ok-injective k))
    ∙ (assign_channels-FollowsAll cs (radios_only radios, 0) last p).0

-- With a configuration that `getGatewayConfig` returns, the gateway listens on the frequencies of the multi-SF channels, of
-- which there are eight at most, and on no other in its multi-SF channels, and in its standard channel on that of the channel
-- with one spreading factor, if there is one. The frequency of an entry is that of its radio with the intermediate
-- frequency.
pub get_gateway_config-tuned :
    (sort : List Channel → List Channel) (channels : List Channel) (gc : GatewayConfig)
    → get_gateway_config sort channels ≡ ok gc
    → (map (pf_multi_sf (radio_freq gc.radios)) gc.multi_sf_channels
        ≡ fill channel_count (multi_sf_frequencies (sort channels)) none)
      × (length (multi_sf_frequencies (sort channels)) ≤ channel_count)
      × (pf_lora_std (radio_freq gc.radios) gc.lora_std_channel_config
          ≡ single_sf_frequency (sort channels) none)
unfolding get_gateway_config
get_gateway_config-tuned sort channels gc e =
    let cs = sort channels in
    let radios = place_channels cs unset_radios in
    let (last, p, k) =
      >>=-eq-ok (assign_channels cs (radios_only radios, 0)) (λ last. ok last.0) e in
    let (same, hears, bound) = assign_channels-FollowsAll cs (radios_only radios, 0) last p in
    let (std, multi) = hear_all-eq cs none (fill 8 [] none) 0 in
    let count : last.1 ≡ length (multi_sf_frequencies cs) =
      ap (λ h. h.2) hears ∙ hear_all-count cs none (fill 8 [] none) 0 ∙ omega arith in
    subst
      (λ gc.
        (map (pf_multi_sf (radio_freq gc.radios)) gc.multi_sf_channels
          ≡ fill channel_count (multi_sf_frequencies cs) none)
        × (length (multi_sf_frequencies cs) ≤ channel_count)
        × (pf_lora_std (radio_freq gc.radios) gc.lora_std_channel_config
            ≡ single_sf_frequency cs none))
      (ok-injective k)
      (
        ap (λ rs. map (pf_multi_sf (radio_freq rs)) last.0.multi_sf_channels) same
            ∙ ap (λ h. h.1) hears
            ∙ multi
            ∙ set_from-fill 8 (multi_sf_frequencies cs) none,
        subst (λ n. n ≤ channel_count) count (bound (omega arith)),
        ap (λ rs. pf_lora_std (radio_freq rs) last.0.lora_std_channel_config) same
            ∙ ap (λ h. h.0) hears
            ∙ std,
      )
