-- ===== src/Basicstation/Structs/RouterConfig/Entries.antt =====
-- router_config.go: the frequencies on which a station listens with a configuration.
use mathlib.Core.Path.{subst, fun_ext}
use chirpstack_gateway_bridg.Prelude.{
  ◌==◌, length, get_or, set_at, fill, set_from-fill, ok, ◌>>=◌, map_err, >>=-eq-ok, ok-injective,
  nat_key, bytes_key, ℕ, zero, suc, ◌≡◌, refl, sym, ap, ◌∙◌, Bool, true, false, not, Option, none,
  some, List, [], ◌∷◌, map, arith,
}
use chirpstack_gateway_bridg.Prelude.Int.{ℤ, pos, add_int-int_sub}
use chirpstack_gateway_bridg.Platform.{Modulation, lora, fsk, other_modulation}
use chirpstack_gateway_bridg.Sx1301.Radios.{
  LoraModulationConfig, get_lora_config, Channel, get_radio_frequencies, get_radio_for_channel,
}
use chirpstack_gateway_bridg.Sx1301.Heard.{
  multi_sf_of, single_sf_of, on_lora, multi_sf_frequencies, single_sf_frequency, tuned_by,
  map-set_at, Heard, hear, hear_all, hear_all-eq,
}
use chirpstack_gateway_bridg.Basicstation.Structs.RouterConfig.{
  ChanLoraStd, ChanMultiSf, Sx1301Conf, radio_error, radios_of, multi_sf_entry, lora_channel,
  with_channel, with_channels, start_conf, sx1301_conf_of,
}

abbrev pub tuned_multi_sf : (ℕ → ℕ) → ChanMultiSf → Option ℤ
tuned_multi_sf radio e = tuned_by (λ r. pos (radio r)) e.enable e.radio e.if_freq

abbrev pub tuned_lora_std : (ℕ → ℕ) → ChanLoraStd → Option ℤ
tuned_lora_std radio e = tuned_by (λ r. pos (radio r)) e.enable e.radio e.if_freq

abbrev heard : (ℕ → ℕ) → Sx1301Conf × ℕ → Heard
heard radio (conf, n) =
    (tuned_lora_std radio conf.chan_lora_std, map (tuned_multi_sf radio) conf.chan_multi_sf, n)

hear_multi_sf :
    (radio : ℕ → ℕ) (c : Channel) (r n : ℕ) (conf : Sx1301Conf)
    → heard radio (
      record conf { chan_multi_sf = set_at n (multi_sf_entry c r (radio r)) conf.chan_multi_sf },
      suc n,
    )
      ≡ hear true false c.frequency (heard radio (conf, n))
unfolding multi_sf_entry
hear_multi_sf radio c r n conf =
    ap (λ m. (tuned_lora_std radio conf.chan_lora_std, m, suc n))
      (map-set_at (tuned_multi_sf radio) n (multi_sf_entry c r (radio r)) conf.chan_multi_sf
        ∙ ap (λ f. set_at n (some f) (map (tuned_multi_sf radio) conf.chan_multi_sf))
            (add_int-int_sub c.frequency (radio r)))

hear_lora :
    (radio : ℕ → ℕ) (c : Channel) (r : ℕ) (s : Sx1301Conf × ℕ) (bandwidth : ℕ) (xs : List ℕ)
    → heard radio (
        lora_channel c r
          (radio r)
          s
          (some (record { bandwidth = bandwidth; spreading_factors = xs })))
      ≡ hear (not (length xs == 1)) (length xs == 1) c.frequency (heard radio s)
unfolding lora_channel
hear_lora radio c r (conf, n) b [] = hear_multi_sf radio c r n conf
hear_lora radio c r (conf, n) b (x ∷ []) =
    ap (λ f. (some f, map (tuned_multi_sf radio) conf.chan_multi_sf, n))
      (add_int-int_sub c.frequency (radio r))
hear_lora radio c r (conf, n) b (x ∷ y ∷ xs) =
    hear_multi_sf radio c r n conf
    ∙ ap (λ t. hear (not t) t c.frequency (heard radio (conf, n))) (sym (two_or_more (length xs)))
  where
    two_or_more : (k : ℕ) → (suc (suc k) == 1) ≡ false
    two_or_more k = ground arith

hear_parameters :
    (radio : ℕ → ℕ) (c : Channel) (r : ℕ) (s : Sx1301Conf × ℕ) (i : Option LoraModulationConfig)
    → heard radio (lora_channel c r (radio r) s i)
      ≡ hear (multi_sf_of i) (single_sf_of i) c.frequency (heard radio s)
unfolding lora_channel
hear_parameters radio c r s none = refl
hear_parameters radio c r s (some i) = hear_lora radio c r s i.bandwidth i.spreading_factors

hear_channel :
    (radio : ℕ → ℕ) (c : Channel) (r : ℕ) (s : Sx1301Conf × ℕ) (m : Modulation)
    → heard radio (with_channel c r (radio r) s m)
      ≡ hear
          (on_lora (multi_sf_of (get_lora_config c.modulation_config)) m)
          (on_lora (single_sf_of (get_lora_config c.modulation_config)) m)
          c.frequency
          (heard radio s)
unfolding with_channel
hear_channel radio c r s lora = hear_parameters radio c r s (get_lora_config c.modulation_config)
hear_channel radio c r s fsk = refl
hear_channel radio c r s (other_modulation n) = refl

hear_channels :
    (radios : List ℕ) (cs : List Channel) (s last : Sx1301Conf × ℕ)
    → with_channels radios cs s ≡ ok last
    → heard (λ r. get_or radios r 0) last ≡ hear_all cs (heard (λ r. get_or radios r 0) s)
unfolding with_channels
hear_channels radios [] s last e = ap (heard (λ r. get_or radios r 0)) (sym (ok-injective e))
hear_channels radios (c ∷ cs) s last e =
    let (r, p, rest) =
      >>=-eq-ok (map_err radio_error (get_radio_for_channel radios c))
        (λ r. with_channels radios cs (with_channel c r (get_or radios r 0) s c.modulation)) e in
    hear_channels radios cs (with_channel c r (get_or radios r 0) s c.modulation) last rest
    ∙ ap (hear_all cs) (hear_channel (λ r. get_or radios r 0) c r s c.modulation)

-- The frequency of a radio of a configuration.
abbrev pub radio_frequency : Sx1301Conf → ℕ → ℕ
radio_frequency conf r = (get_or conf.radios r (false, 0)).1

get_or-radios_of : (fs : List ℕ) (r : ℕ) → (get_or (radios_of fs) r (false, 0)).1 ≡ get_or fs r 0
get_or-radios_of [] r = refl
get_or-radios_of (f ∷ fs) zero = refl
get_or-radios_of (f ∷ fs) (suc r) = get_or-radios_of fs r

lora_channel-radios :
    (c : Channel) (r f : ℕ) (s : Sx1301Conf × ℕ) (bandwidth : ℕ) (xs : List ℕ)
    → (lora_channel c r f s
        (some (record { bandwidth = bandwidth; spreading_factors = xs }))).0.radios
      ≡ s.0.radios
unfolding lora_channel
lora_channel-radios c r f (conf, n) b [] = refl
lora_channel-radios c r f (conf, n) b (x ∷ []) = refl
lora_channel-radios c r f (conf, n) b (x ∷ y ∷ xs) = refl

with_channel-radios :
    (c : Channel) (r f : ℕ) (s : Sx1301Conf × ℕ) (m : Modulation)
    → (with_channel c r f s m).0.radios ≡ s.0.radios
unfolding with_channel lora_channel
with_channel-radios c r f s lora = go (get_lora_config c.modulation_config)
  where
    go : (i : Option LoraModulationConfig) → (lora_channel c r f s i).0.radios ≡ s.0.radios
    go none = refl
    go (some i) = lora_channel-radios c r f s i.bandwidth i.spreading_factors
with_channel-radios c r f s fsk = refl
with_channel-radios c r f s (other_modulation n) = refl

with_channels-radios :
    (radios : List ℕ) (cs : List Channel) (s last : Sx1301Conf × ℕ)
    → with_channels radios cs s ≡ ok last
    → last.0.radios ≡ s.0.radios
unfolding with_channels
with_channels-radios radios [] s last e = ap (λ t. t.0.radios) (sym (ok-injective e))
with_channels-radios radios (c ∷ cs) s last e =
    let (r, p, rest) =
      >>=-eq-ok (map_err radio_error (get_radio_for_channel radios c))
        (λ r. with_channels radios cs (with_channel c r (get_or radios r 0) s c.modulation)) e in
    with_channels-radios radios cs (with_channel c r (get_or radios r 0) s c.modulation) last rest
    ∙ with_channel-radios c r (get_or radios r 0) s c.modulation

-- A concentrator hears the first eight multi-SF channels, and the last channel with one spreading factor.
abbrev pub IsTuned : List Channel → Sx1301Conf → Type 0
IsTuned channels conf =
    (map (tuned_multi_sf (radio_frequency conf)) conf.chan_multi_sf
      ≡ fill 8 (multi_sf_frequencies channels) none)
    × (tuned_lora_std (radio_frequency conf) conf.chan_lora_std ≡ single_sf_frequency channels none)

pub sx1301_conf_of-IsTuned :
    (sort : List Channel → List Channel) (channels : List Channel) (conf : Sx1301Conf)
    → sx1301_conf_of sort channels ≡ ok conf
    → IsTuned (sort channels) conf
unfolding sx1301_conf_of
sx1301_conf_of-IsTuned sort channels conf e =
    let (radios, p, k) =
      >>=-eq-ok (map_err radio_error (get_radio_frequencies sort channels))
        (λ radios.
          with_channels radios (sort channels) (start_conf radios, 0) >>= λ last. ok last.0)
        e in
    let (last, q, f) =
      >>=-eq-ok (with_channels radios (sort channels) (start_conf radios, 0)) (λ last. ok last.0)
        k in
    let same : radio_frequency last.0 ≡ (λ r. get_or radios r 0) = fun_ext (λ r.
      ap (λ (rs : List (Bool × ℕ)). (get_or rs r (false, 0)).1)
        (with_channels-radios radios (sort channels) (start_conf radios, 0) last q)
      ∙ get_or-radios_of radios r) in
    let hears = hear_channels radios (sort channels) (start_conf radios, 0) last q in
    let (std, multi) = hear_all-eq (sort channels) none (fill 8 [] none) 0 in
    subst (IsTuned (sort channels)) (ok-injective f) (
      ap (λ g. map (tuned_multi_sf g) last.0.chan_multi_sf) same
          ∙ ap (λ h. h.1) hears
          ∙ multi
          ∙ set_from-fill 8 (multi_sf_frequencies (sort channels)) none,
      ap (λ g. tuned_lora_std g last.0.chan_lora_std) same ∙ ap (λ h. h.0) hears ∙ std,
    )
