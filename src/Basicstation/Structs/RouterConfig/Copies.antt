-- ===== src/Basicstation/Structs/RouterConfig/Copies.antt =====
-- router_config.go: `GetRouterConfig` and `GetRouterConfigOld` each have their own code for the radios and the channels of
-- a concentrator. Both do the same.
use mathlib.Core.Path.{fun_ext}
use chirpstack_gateway_bridg.Prelude.{
  ◌==◌, length, get_or, fill, ok, ◌>>=◌, map_err, nat_key, bytes_key, ℕ, suc, ◌≡◌, refl, ap, ◌∙◌,
  false, not, Option, none, some, List, [], ◌∷◌, arith,
}
use chirpstack_gateway_bridg.Platform.{Modulation, lora, fsk, other_modulation}
use chirpstack_gateway_bridg.Sx1301.Radios.{
  LoraModulationConfig, get_lora_config, Channel, get_radio_frequencies, get_radio_for_channel,
}
use chirpstack_gateway_bridg.Basicstation.Structs.RouterConfig.{
  Sx1301Conf, radio_error, radios_of, multi_sf_entry, lora_channel, with_channel, with_channels,
  no_lora_std, no_multi_sf, sx1301_conf_of,
}
use chirpstack_gateway_bridg.Basicstation.Structs.RouterConfig.Concentrator.{
  concentrator_radios, place_lora, place_parameters, place_modulation, place_configured,
  concentrator_conf,
}

concentrator_radios-eq : (fs : List ℕ) → concentrator_radios fs ≡ radios_of fs
unfolding concentrator_radios
concentrator_radios-eq [] = refl
concentrator_radios-eq (f ∷ fs) = ap (◌∷◌ (not (f == 0), f)) (concentrator_radios-eq fs)

place_lora-eq :
    (c : Channel) (r f : ℕ) (conf : Sx1301Conf) (n b : ℕ) (xs : List ℕ)
    → place_lora c r f conf n (record { bandwidth = b; spreading_factors = xs })
      ≡ lora_channel c r f (conf, n) (some (record { bandwidth = b; spreading_factors = xs }))
unfolding place_lora lora_channel multi_sf_entry
place_lora-eq c r f conf n b [] = refl
place_lora-eq c r f conf n b (x ∷ []) = refl
place_lora-eq c r f conf n b (x ∷ y ∷ xs) = rw (two_or_more (length xs)) refl
  where
    two_or_more : (k : ℕ) → (suc (suc k) == 1) ≡ false
    two_or_more k = ground arith

place_parameters-eq :
    (c : Channel) (r f : ℕ) (s : Sx1301Conf × ℕ) (i : Option LoraModulationConfig)
    → place_parameters c r f s i ≡ lora_channel c r f s i
unfolding place_parameters lora_channel
place_parameters-eq c r f (conf, n) none = refl
place_parameters-eq c r f (conf, n) (some i) =
    place_lora-eq c r f conf n i.bandwidth i.spreading_factors

place_modulation-eq :
    (c : Channel) (r f : ℕ) (s : Sx1301Conf × ℕ) (m : Modulation)
    → place_modulation c r f s m ≡ with_channel c r f s m
unfolding place_modulation with_channel
place_modulation-eq c r f s lora = place_parameters-eq c r f s (get_lora_config c.modulation_config)
place_modulation-eq c r f (conf, n) fsk = refl
place_modulation-eq c r f (conf, n) (other_modulation m) = refl

place_configured-eq :
    (radios : List ℕ) (cs : List Channel) (s : Sx1301Conf × ℕ)
    → place_configured radios s cs ≡ with_channels radios cs s
unfolding place_configured with_channels
place_configured-eq radios [] s = refl
place_configured-eq radios (c ∷ cs) s =
    ap (λ g. map_err radio_error (get_radio_for_channel radios c) >>= g)
      (fun_ext (λ r.
        place_configured-eq radios cs (place_modulation c r (get_or radios r 0) s c.modulation)
        ∙ ap (with_channels radios cs)
            (place_modulation-eq c r (get_or radios r 0) s c.modulation)))

pub concentrator_conf-sx1301_conf_of :
    (sort : List Channel → List Channel) (channels : List Channel)
    → concentrator_conf sort channels ≡ sx1301_conf_of sort channels
unfolding concentrator_conf sx1301_conf_of
concentrator_conf-sx1301_conf_of sort channels =
    ap (λ g. map_err radio_error (get_radio_frequencies sort channels) >>= g)
      (fun_ext (λ radios.
        ap (λ m. m >>= λ last. ok last.0)
          (place_configured-eq radios (sort channels) _
            ∙ ap
                (λ rs. with_channels radios (sort channels) (
                  record {
                    radios = rs;
                    chan_fsk = false;
                    chan_lora_std = no_lora_std;
                    chan_multi_sf = fill 8 [] no_multi_sf;
                  },
                  0,
                ))
                (concentrator_radios-eq radios))))
