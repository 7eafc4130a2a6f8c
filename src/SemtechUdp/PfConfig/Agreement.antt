-- ===== src/SemtechUdp/PfConfig/Agreement.antt =====
-- internal/backend/semtechudp/pf_config.go and internal/config/sx1301v1/sx1301v1.go plan the radios, each in its own way.
use mathlib.Core.Path.{subst}
use chirpstack_gateway_bridg.Prelude.{
  leb, ◌==◌, if◌then◌else◌, Bool-cases, then-eq, else-eq, All, Result, ok, err, >>=-eq-ok,
  ok-injective, nat_key, bytes_key, ℕ, suc, ◌+◌, ◌%◌, ◌^◌, ◌<◌, ◌≡◌, refl, sym, ap, ◌∙◌, inl, inr,
  Bool, true, false, not, List, [], ◌∷◌, map, arith,
}
use chirpstack_gateway_bridg.Prelude.Int.{pos}
use chirpstack_gateway_bridg.Sx1301.Radios.{
  Channel, channel_max, half_radio, min_radio_center_freq, RadioError, place_next, place, plan,
  get_radio_frequencies, covers, radio_from, get_radio_for_channel,
}
use chirpstack_gateway_bridg.SemtechUdp.PfConfig.{
  RadioConfig, GatewayConfig, place_channel, place_channels, covering_radio, get_gateway_config,
}
use chirpstack_gateway_bridg.SemtechUdp.PfConfig.Tuned.{get_gateway_config-radios}
use chirpstack_gateway_bridg.SemtechUdp.PfConfig.SameTests.{
  IsPlannable, IsPlanned, pf_min_radio_center_freq-eq, center-IsPlanned, above-eq, covers-eq,
}

-- A radio of sx1301v1 in the form of a packet-forwarder: 0 is no frequency.
abbrev pub radio_of : ℕ → RadioConfig
radio_of f = record { enable = not (f == 0); freq = pos f }

covering_radio-radio_from :
    (c : Channel) (i r : ℕ) (fs : List ℕ)
    → IsPlannable c
    → All IsPlanned fs
    → radio_from c i fs ≡ ok r
    → covering_radio c i (map radio_of fs) ≡ r
unfolding covering_radio radio_from
covering_radio-radio_from c i r [] h s e = cc
covering_radio-radio_from c i r (f ∷ fs) h s e = elim (Bool-cases (covers c f)) [
  | inl t ↦ rw (covers-eq c f h s.0, t) (ok-injective (then-eq (covers c f) _ _ t e))
  | inr n ↦
      rw (covers-eq c f h s.0, n)
        (covering_radio-radio_from c (suc i) r fs h s.1 (else-eq (covers c f) _ _ n e))
]

place_next-eq-ok :
    (c : Channel) (f : ℕ) (fs gs : List ℕ) (m : Result RadioError (List ℕ))
    → place_next c f fs m ≡ ok gs
    → (ns : List ℕ) × (m ≡ ok ns) × (gs ≡ f ∷ ns)
place_next-eq-ok c f [] gs m e = cc
place_next-eq-ok c f (g ∷ fs) gs (err r) e = cc
place_next-eq-ok c f (g ∷ fs) gs (ok ns) e = (ns, refl, sym (ok-injective e))

set_bound : (f : ℕ) → (f == 0) ≡ false → IsPlanned f → f + 1000000 < 2 ^ 32
set_bound f p s = ground arith

-- A radio with a frequency, as the test of the placing loop decides.
after_test :
    (c : Channel) (f : ℕ) (fs gs : List ℕ) (t : Bool)
    → (f == 0) ≡ false
    → All IsPlanned (f ∷ fs)
    → ((ns : List ℕ)
        → IsPlannable c
        → All IsPlanned fs
        → place c fs ≡ ok ns
        → (place_channel c (map radio_of fs) ≡ map radio_of ns) × All IsPlanned ns)
    → (if t then ok (f ∷ fs) else place_next c f fs (place c fs)) ≡ ok gs
    → IsPlannable c
    → ((if t
          then record { enable = true; freq = pos f } ∷ map radio_of fs
          else record { enable = true; freq = pos f } ∷ place_channel c (map radio_of fs))
        ≡ map radio_of gs)
      × All IsPlanned gs
after_test c f fs gs true p s ih e h =
    subst
      (λ gs.
        (record { enable = true; freq = pos f } ∷ map radio_of fs ≡ map radio_of gs)
        × All IsPlanned gs)
      (ok-injective e)
      (ap (λ b. record { enable = not b; freq = pos f } ∷ map radio_of fs) (sym p), s)
after_test c f fs gs false p s ih e h =
    let (ns, q, k) = place_next-eq-ok c f fs gs (place c fs) e in
    let (placed, sets) = ih ns h s.1 q in
    subst
      (λ gs.
        (record { enable = true; freq = pos f } ∷ place_channel c (map radio_of fs)
          ≡ map radio_of gs)
        × All IsPlanned gs)
      (sym k)
      (
        ap (λ rs. record { enable = true; freq = pos f } ∷ rs) placed
            ∙ ap (λ b. record { enable = not b; freq = pos f } ∷ map radio_of ns) (sym p),
        (s.0, sets),
      )

-- The placing of one channel, where sx1301v1 finds a place.
place_channel-place :
    (c : Channel) (fs gs : List ℕ)
    → IsPlannable c
    → All IsPlanned fs
    → place c fs ≡ ok gs
    → (place_channel c (map radio_of fs) ≡ map radio_of gs) × All IsPlanned gs
unfolding place_channel place
place_channel-place c [] gs h s e =
    subst (λ gs. ([] ≡ map radio_of gs) × All IsPlanned gs) (ok-injective e) (refl, tt)
place_channel-place c (f ∷ fs) gs h s e = elim (Bool-cases (f == 0)) [
  | inl z ↦
      rw (z, pf_min_radio_center_freq-eq c h)
        (subst
          (λ gs.
            (record { enable = true; freq = pos (min_radio_center_freq c) } ∷ map radio_of fs
              ≡ map radio_of gs)
            × All IsPlanned gs)
          (ok-injective (then-eq (f == 0) _ _ z e))
          (
            ap (λ b. record { enable = b; freq = pos (min_radio_center_freq c) } ∷ map radio_of fs)
                (sym center_on),
            (inr (center-IsPlanned c h), s.1),
          ))
  | inr p ↦ rw p (
      subst
        (λ t.
          ((if t
              then record { enable = true; freq = pos f } ∷ map radio_of fs
              else record { enable = true; freq = pos f } ∷ place_channel c (map radio_of fs))
            ≡ map radio_of gs)
          × All IsPlanned gs)
        (sym (above-eq c f h (set_bound f p s.0)))
        (after_test c f fs gs (leb (channel_max c) ((f + half_radio c) % 2 ^ 32)) p s
          (place_channel-place c fs) (else-eq (f == 0) _ _ p e) h))
]
  where
    center_on : not (min_radio_center_freq c == 0) ≡ true
    center_on = ground (arith, center-IsPlanned c h)

place_channels-plan :
    (cs : List Channel) (fs gs : List ℕ)
    → All IsPlannable cs
    → All IsPlanned fs
    → plan cs fs ≡ ok gs
    → (place_channels cs (map radio_of fs) ≡ map radio_of gs) × All IsPlanned gs
unfolding plan place_channels
place_channels-plan [] fs gs h s e =
    subst (λ gs. (map radio_of fs ≡ map radio_of gs) × All IsPlanned gs) (ok-injective e) (refl, s)
place_channels-plan (c ∷ cs) fs gs h s e =
    let (next, p, rest) = >>=-eq-ok (place c fs) (λ next. plan cs next) e in
    let (placed, sets) = place_channel-place c fs next h.0 s p in
    let (last, all) = place_channels-plan cs next gs h.1 sets rest in
    (ap (place_channels cs) placed ∙ last, all)

-- Where `GetRadioFrequencies` returns radios for channels in the range, `getGatewayConfig`, if it returns a configuration of them, has
-- radios with the same centre frequencies; and the radio that it takes for a channel is the one of `GetRadioForChannel`, where
-- that returns one.
pub get_gateway_config-get_radio_frequencies :
    (sort : List Channel → List Channel) (channels : List Channel) (fs : List ℕ)
    (gc : GatewayConfig)
    → All IsPlannable (sort channels)
    → get_radio_frequencies sort channels ≡ ok fs
    → get_gateway_config sort channels ≡ ok gc
    → (gc.radios ≡ map radio_of fs)
      × ((c : Channel) (r : ℕ)
          → IsPlannable c
          → get_radio_for_channel fs c ≡ ok r
          → covering_radio c 0 gc.radios ≡ r)
unfolding get_radio_frequencies get_radio_for_channel get_gateway_config
get_gateway_config-get_radio_frequencies sort channels fs gc h e k =
    let cs = sort channels in
    let (placed, sets) = place_channels-plan cs (0 ∷ 0 ∷ []) fs h (inl refl, (inl refl, tt)) e in
    let same : gc.radios ≡ map radio_of fs =
      get_gateway_config-radios sort channels gc k ∙ placed in
    (same, λ c r p q. ap (covering_radio c 0) same ∙ covering_radio-radio_from c 0 r fs p sets q)
