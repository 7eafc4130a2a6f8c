-- ===== src/Basicstation/Structs/RouterConfig/Tuned.antt =====
-- `GetRouterConfigOld` and `GetRouterConfig` of router_config.go: what the stations hear.
use mathlib.Core.Path.{subst}
use mathlib.Core.List.{Permᴰ}
use chirpstack_gateway_bridg.Prelude.{
  length, fill, Pointwise, ok, ◌>>=◌, >>=-eq-ok, ok-injective, or_fail, Bytes, nat_key, bytes_key,
  ℕ, ◌≡◌, sym, ap, ◌∙◌, Option, none, some, List, [], ◌∷◌, map,
}
use chirpstack_gateway_bridg.Prelude.Int.{pos}
use chirpstack_gateway_bridg.Sx1301.Radios.{Channel}
use chirpstack_gateway_bridg.Basicstation.Structs.RouterConfig.{
  Region, Band, Sx1301Conf, RouterConfig, no_band_config, sx1301_conf_of, base_config,
  get_router_config_old,
}
use chirpstack_gateway_bridg.Basicstation.Structs.RouterConfig.Concentrator.{
  Concentrator, channels_of, concentrator_conf, confs_of, get_router_config,
}
use chirpstack_gateway_bridg.Basicstation.Structs.RouterConfig.Copies.{
  concentrator_conf-sx1301_conf_of,
}
use chirpstack_gateway_bridg.Basicstation.Structs.RouterConfig.Frequencies.{
  standard_frequency, single_sf_frequency-channels_of, multi_sf_frequencies-channels_of,
}
use chirpstack_gateway_bridg.Basicstation.Structs.RouterConfig.Entries.{
  tuned_multi_sf, tuned_lora_std, radio_frequency, IsTuned, sx1301_conf_of-IsTuned,
}

-- The one concentrator of a configuration that `GetRouterConfigOld` returns listens on the frequencies of the first
-- eight multi-SF channels, in the order of the sort, on no other in its multi-SF channels, and in its standard channel
-- on that of the last channel with one spreading factor, if there is one. The frequency of an entry is that of its radio with
-- the intermediate frequency.
pub get_router_config_old-IsTuned :
    (sort : List Channel → List Channel) (region : Region) (band : Option Band)
    (net_ids : List Bytes) (join_euis : List (Bytes × Bytes)) (range : ℕ × ℕ)
    (channels : List Channel) (c : RouterConfig)
    → get_router_config_old sort region band net_ids join_euis range channels ≡ ok c
    → (conf : Sx1301Conf) × (c.sx1301_conf ≡ conf ∷ []) × IsTuned (sort channels) conf
unfolding get_router_config_old base_config
get_router_config_old-IsTuned sort region band net_ids join_euis range channels c e =
    let (b, p, k) =
      >>=-eq-ok (or_fail no_band_config band)
        (λ b. sx1301_conf_of sort channels >>= λ conf.
          ok (base_config region net_ids join_euis range b 1 (conf ∷ [])))
        e in
    let (conf, q, f) =
      >>=-eq-ok (sx1301_conf_of sort channels)
        (λ conf. ok (base_config region net_ids join_euis range b 1 (conf ∷ []))) k in
    (
      conf,
      sym (ap (λ c. c.sx1301_conf) (ok-injective f)),
      sx1301_conf_of-IsTuned sort channels conf q,
    )

-- A concentrator hears the configured multi-SF frequencies, up to eight of them, and the configured standard frequency.
abbrev pub IsTunedFor : Concentrator → Sx1301Conf → Type 0
IsTunedFor d conf =
    (fs : List ℕ) × Permᴰ fs d.multi_sf_frequencies
    × (map (tuned_multi_sf (radio_frequency conf)) conf.chan_multi_sf
        ≡ fill 8 (map (λ f. some (pos f)) fs) none)
    × (tuned_lora_std (radio_frequency conf) conf.chan_lora_std ≡ standard_frequency d)

module _ (sort : List Channel → List Channel)
    (permutes : (cs : List Channel) → Permᴰ (sort cs) cs) where
  concentrator_conf-IsTunedFor :
      (d : Concentrator) (conf : Sx1301Conf)
      → concentrator_conf sort (channels_of d) ≡ ok conf
      → IsTunedFor d conf
  concentrator_conf-IsTunedFor d conf e =
      let (multi, std) =
        sx1301_conf_of-IsTuned sort (channels_of d) conf
          (sym (concentrator_conf-sx1301_conf_of sort (channels_of d)) ∙ e) in
      let (fs, p, same) =
        multi_sf_frequencies-channels_of d (sort (channels_of d)) (permutes (channels_of d)) in
      (
        fs,
        p,
        multi ∙ ap (λ o. fill 8 o none) same,
        std ∙ single_sf_frequency-channels_of d (sort (channels_of d)) (permutes (channels_of d)),
      )

  confs_of-IsTunedFor :
      (cs : List Concentrator) (confs : List Sx1301Conf)
      → confs_of sort cs ≡ ok confs
      → Pointwise IsTunedFor cs confs
  unfolding confs_of
  confs_of-IsTunedFor [] confs e = subst (Pointwise IsTunedFor []) (ok-injective e) tt
  confs_of-IsTunedFor (c ∷ cs) confs e =
      let (conf, p, k) =
        >>=-eq-ok (concentrator_conf sort (channels_of c))
          (λ conf. confs_of sort cs >>= λ rest. ok (conf ∷ rest)) e in
      let (rest, q, f) = >>=-eq-ok (confs_of sort cs) (λ rest. ok (conf ∷ rest)) k in
      subst (Pointwise IsTunedFor (c ∷ cs)) (ok-injective f)
        (concentrator_conf-IsTunedFor c conf p, confs_of-IsTunedFor cs rest q)

  -- A configuration that `GetRouterConfig` returns has one concentrator for each configured one, in their order. It listens in
  -- its multi-SF channels on the configured multi-SF frequencies, in some order and without those behind the eighth, and on no other,
  -- and in its standard channel on the configured frequency, if there is one. The frequency of an entry is that of its radio with the
  -- intermediate frequency. The sort permutes the channels.
  pub get_router_config-IsTuned :
      (region : Region) (band : Option Band) (net_ids : List Bytes)
      (join_euis : List (Bytes × Bytes)) (range : ℕ × ℕ) (concentrators : List Concentrator)
      (c : RouterConfig)
      → get_router_config sort region band net_ids join_euis range concentrators ≡ ok c
      → Pointwise IsTunedFor concentrators c.sx1301_conf
  unfolding get_router_config base_config
  get_router_config-IsTuned region band net_ids join_euis range concentrators c e =
      let (b, p, k) =
        >>=-eq-ok (or_fail no_band_config band)
          (λ b. confs_of sort concentrators >>= λ confs.
            ok (base_config region net_ids join_euis range b (length concentrators) confs))
          e in
      let (confs, q, f) =
        >>=-eq-ok (confs_of sort concentrators)
          (λ confs. ok (base_config region net_ids join_euis range b (length concentrators) confs))
          k in
      subst (Pointwise IsTunedFor concentrators) (ap (λ c. c.sx1301_conf) (ok-injective f))
        (confs_of-IsTunedFor concentrators confs q)
