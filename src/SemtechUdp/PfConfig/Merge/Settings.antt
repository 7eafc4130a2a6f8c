-- ===== src/SemtechUdp/PfConfig/Merge/Settings.antt =====
-- `mergeConfig` of internal/backend/semtechudp/pf_config.go: the fields that the new configuration sets.
use mathlib.Core.Path.{subst}
use chirpstack_gateway_bridg.Prelude.{
  get_elem?, Bytes, codes, nat_key, bytes_key, ℕ, zero, suc, ◌+◌, ◌≡◌, refl, sym, ap, ◌∙◌, ◌↔◌, ◌⊎◌,
  inl, inr, Option, none, some, List, [], ◌∷◌, ◌++◌, arith,
}
use chirpstack_gateway_bridg.Prelude.Int.{pos}
use chirpstack_gateway_bridg.Decimal.{format_uint}
use chirpstack_gateway_bridg.SemtechUdp.PfConfig.{RadioConfig, MultiSfChannelConfig, GatewayConfig}
use chirpstack_gateway_bridg.SemtechUdp.PfConfig.Merge.{
  Field, bool_field, int_field, Object, radio_updates, multi_sf_updates, lora_std_update,
  fsk_update, updates,
}
use chirpstack_gateway_bridg.SemtechUdp.PfConfig.Merge.Entries.{IsEntry, IsUpdate, IsUpdate-append}

-- What a new configuration sets: the fields of the i-th radio and multi-SF channel, of the standard channel, and of the FSK
-- channel, each under the key of its object.
pub data Sets (gc : GatewayConfig) (key name : Bytes) (v : Field) : Type 0 where
  sets_radio :
      (i : ℕ) (r : RadioConfig)
      → get_elem? gc.radios i ≡ some r
      → key ≡ codes "radio_" ++ format_uint i
      → IsEntry name v
          ((codes "enable", bool_field r.enable) ∷ (codes "freq", int_field r.freq) ∷ [])
      → Sets gc key name v
  sets_multi_sf :
      (i : ℕ) (c : MultiSfChannelConfig)
      → get_elem? gc.multi_sf_channels i ≡ some c
      → key ≡ codes "chan_multiSF_" ++ format_uint i
      → IsEntry name v (
          (codes "enable", bool_field c.enable)
          ∷ (codes "radio", int_field (pos c.radio))
          ∷ (codes "if", int_field c.if_freq)
          ∷ [])
      → Sets gc key name v
  sets_lora_std :
      key ≡ codes "chan_Lora_std"
      → IsEntry name v (
          (codes "enable", bool_field gc.lora_std_channel_config.enable)
          ∷ (codes "radio", int_field (pos gc.lora_std_channel_config.radio))
          ∷ (codes "if", int_field gc.lora_std_channel_config.if_freq)
          ∷ (codes "bandwidth", int_field (pos gc.lora_std_channel_config.bandwidth))
          ∷ (codes "spread_factor", int_field (pos gc.lora_std_channel_config.spread_factor))
          ∷ [])
      → Sets gc key name v
  sets_fsk :
      key ≡ codes "chan_FSK"
      → IsEntry name v (
          (codes "enable", bool_field gc.fsk_channel_config.enable)
          ∷ (codes "radio", int_field (pos gc.fsk_channel_config.radio))
          ∷ (codes "if", int_field gc.fsk_channel_config.if_freq)
          ∷ (codes "bandwidth", int_field (pos gc.fsk_channel_config.bandwidth))
          ∷ (codes "datarate", int_field (pos gc.fsk_channel_config.data_rate))
          ∷ [])
      → Sets gc key name v

-- The fields of a numbered item of a list, whose first item has the number `k`.
abbrev radio_fields : RadioConfig → Object
radio_fields r = (codes "enable", bool_field r.enable) ∷ (codes "freq", int_field r.freq) ∷ []

abbrev multi_sf_fields : MultiSfChannelConfig → Object
multi_sf_fields c =
    (codes "enable", bool_field c.enable)
    ∷ (codes "radio", int_field (pos c.radio))
    ∷ (codes "if", int_field c.if_freq)
    ∷ []

module _ (key name : Bytes) (v : Field) where
  module _ {A : Type 0} (prefix : Bytes) (fields : A → Object) where
    IsNumbered : ℕ → List A → Type 0
    IsNumbered k xs =
        (i : ℕ) × (x : A) × (get_elem? xs i ≡ some x)
        × (key ≡ prefix ++ format_uint (k + i))
        × IsEntry name v (fields x)

    number-eq : (m n : ℕ) → m ≡ n → prefix ++ format_uint m ≡ prefix ++ format_uint n
    number-eq m n e = ap (λ n. prefix ++ format_uint n) e

    IsNumbered-nil : (k : ℕ) → ¬ IsNumbered k []
    unfolding IsNumbered
    IsNumbered-nil k (i, x, e, same, is) = cc

    IsNumbered-first :
        (k : ℕ) (x : A) (xs : List A)
        → (key ≡ prefix ++ format_uint k) × IsEntry name v (fields x)
        → IsNumbered k (x ∷ xs)
    unfolding IsNumbered
    IsNumbered-first k x xs h = (zero, x, refl, h.0 ∙ number-eq k (k + zero) (omega arith), h.1)

    IsNumbered-later : (k : ℕ) (x : A) (xs : List A) → IsNumbered (suc k) xs → IsNumbered k (x ∷ xs)
    unfolding IsNumbered
    IsNumbered-later k x xs (i, y, e, same, is) =
        (suc i, y, e, same ∙ number-eq (suc k + i) (k + suc i) (omega arith), is)

    IsNumbered-cases :
        (k : ℕ) (x : A) (xs : List A)
        → IsNumbered k (x ∷ xs)
        → ((key ≡ prefix ++ format_uint k) × IsEntry name v (fields x)) ⊎ IsNumbered (suc k) xs
    unfolding IsNumbered
    IsNumbered-cases k x xs (zero, y, e, same, is) = inl (
      same ∙ number-eq (k + zero) k (omega arith),
      subst (λ o. IsEntry name v (fields (item o))) (sym e) is,
    )
      where
        item : Option A → A
        item none = x
        item (some a) = a
    IsNumbered-cases k x xs (suc i, y, e, same, is) =
        inr (i, y, e, same ∙ number-eq (k + suc i) (suc k + i) (omega arith), is)

  radio_updates-IsNumbered :
      (k : ℕ) (rs : List RadioConfig)
      → IsUpdate key name v (radio_updates k rs) ↔ IsNumbered (codes "radio_") radio_fields k rs
  unfolding IsUpdate radio_updates
  radio_updates-IsNumbered k [] =
      (λ h. absurd h, λ h. IsNumbered-nil (codes "radio_") radio_fields k h)
  radio_updates-IsNumbered k (x ∷ rs) =
      let (to, from) = radio_updates-IsNumbered (suc k) rs in
      (
        λ h. elim h [
          | inl here ↦ IsNumbered-first (codes "radio_") radio_fields k x rs here
          | inr there ↦ IsNumbered-later (codes "radio_") radio_fields k x rs (to there)
        ],
        λ h. elim (IsNumbered-cases (codes "radio_") radio_fields k x rs h) [
          | inl here ↦ inl here
          | inr there ↦ inr (from there)
        ],
      )

  multi_sf_updates-IsNumbered :
      (k : ℕ) (cs : List MultiSfChannelConfig)
      → IsUpdate key name v (multi_sf_updates k cs)
        ↔ IsNumbered (codes "chan_multiSF_") multi_sf_fields k cs
  unfolding IsUpdate multi_sf_updates
  multi_sf_updates-IsNumbered k [] =
      (λ h. absurd h, λ h. IsNumbered-nil (codes "chan_multiSF_") multi_sf_fields k h)
  multi_sf_updates-IsNumbered k (x ∷ cs) =
      let (to, from) = multi_sf_updates-IsNumbered (suc k) cs in
      (
        λ h. elim h [
          | inl here ↦ IsNumbered-first (codes "chan_multiSF_") multi_sf_fields k x cs here
          | inr there ↦ IsNumbered-later (codes "chan_multiSF_") multi_sf_fields k x cs (to there)
        ],
        λ h. elim (IsNumbered-cases (codes "chan_multiSF_") multi_sf_fields k x cs h) [
          | inl here ↦ inl here
          | inr there ↦ inr (from there)
        ],
      )

module _ (gc : GatewayConfig) (key name : Bytes) (v : Field) where
  channel_updates : List (Bytes × Object)
  channel_updates =
      multi_sf_updates 0 gc.multi_sf_channels
      ++ (lora_std_update gc.lora_std_channel_config ∷ fsk_update gc.fsk_channel_config ∷ [])

  rest_of_updates-Sets :
      IsUpdate key name v
        (lora_std_update gc.lora_std_channel_config ∷ fsk_update gc.fsk_channel_config ∷ [])
      → Sets gc key name v
  unfolding IsUpdate lora_std_update fsk_update
  rest_of_updates-Sets (inl (same, is)) = sets_lora_std same is
  rest_of_updates-Sets (inr (inl (same, is))) = sets_fsk same is
  rest_of_updates-Sets (inr (inr bad)) = absurd bad

  pub updates-Sets : IsUpdate key name v (updates gc) → Sets gc key name v
  unfolding updates channel_updates IsNumbered
  updates-Sets h =
      elim ((IsUpdate-append key name v (radio_updates 0 gc.radios) channel_updates).0 h) [
        | inl l ↦
            let (i, r, e, same, is) = (radio_updates-IsNumbered key name v 0 gc.radios).0 l in
            sets_radio i r e
              (same ∙ number-eq key name v (codes "radio_") radio_fields (0 + i) i (omega arith)) is
        | inr r ↦
            elim ((IsUpdate-append key name v (multi_sf_updates 0 gc.multi_sf_channels) (
                lora_std_update gc.lora_std_channel_config
                ∷ fsk_update gc.fsk_channel_config
                ∷ [])).0
              r) [
                | inl l ↦
                    let (i, c, e, same, is) =
                      (multi_sf_updates-IsNumbered key name v 0 gc.multi_sf_channels).0 l in
                    sets_multi_sf i c e
                      (same
                        ∙ number-eq key name v (codes "chan_multiSF_") multi_sf_fields (0 + i) i
                            (omega arith))
                      is
                | inr last ↦ rest_of_updates-Sets last
              ]
      ]

  later_updates : IsUpdate key name v channel_updates → IsUpdate key name v (updates gc)
  unfolding updates channel_updates
  later_updates h =
      (IsUpdate-append key name v (radio_updates 0 gc.radios) channel_updates).1 (inr h)

  last_updates :
      IsUpdate key name v
        (lora_std_update gc.lora_std_channel_config ∷ fsk_update gc.fsk_channel_config ∷ [])
      → IsUpdate key name v (updates gc)
  unfolding channel_updates
  last_updates h = later_updates (
      (IsUpdate-append key name v (multi_sf_updates 0 gc.multi_sf_channels)
          (lora_std_update gc.lora_std_channel_config ∷ fsk_update gc.fsk_channel_config ∷ [])).1
        (inr h))

  pub Sets-updates : Sets gc key name v → IsUpdate key name v (updates gc)
  unfolding updates channel_updates IsNumbered IsUpdate lora_std_update fsk_update
  Sets-updates (sets_radio i r e same is) =
      (IsUpdate-append key name v (radio_updates 0 gc.radios) channel_updates).1 (
        inl (
          (radio_updates-IsNumbered key name v 0 gc.radios).1 (
            i,
            r,
            e,
            same ∙ number-eq key name v (codes "radio_") radio_fields i (0 + i) (omega arith),
            is,
          )))
  Sets-updates (sets_multi_sf i c e same is) = later_updates (
      (IsUpdate-append key name v (multi_sf_updates 0 gc.multi_sf_channels)
          (lora_std_update gc.lora_std_channel_config ∷ fsk_update gc.fsk_channel_config ∷ [])).1
        (inl (
          (multi_sf_updates-IsNumbered key name v 0 gc.multi_sf_channels).1 (
            i,
            c,
            e,
            same
                ∙ number-eq key name v (codes "chan_multiSF_") multi_sf_fields i (0 + i)
                    (omega arith),
            is,
          ))))
  Sets-updates (sets_lora_std same is) = last_updates (inl (same, is))
  Sets-updates (sets_fsk same is) = last_updates (inr (inl (same, is)))
