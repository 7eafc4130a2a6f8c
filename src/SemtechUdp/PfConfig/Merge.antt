-- ===== src/SemtechUdp/PfConfig/Merge.antt =====
-- `mergeConfig` of internal/backend/semtechudp/pf_config.go. A JSON object is an association list, and the values that
-- are not changed keep their text.
use mathlib.Core.Path.{subst}
pub mod Kept
pub mod Entries
pub mod Settings
pub mod Fields
use chirpstack_gateway_bridg.Prelude.{
  ltb, leb, ◌==◌, if◌then◌else◌, ltb→lt, lt→ltb, leb→le, ==_iff, Bool-cases, Option-cases, is_some,
  then-eq, else-eq, length, get_or, take, drop, length-append, take-append, drop-append, take_all,
  length-take, take-append-drop, All, All-append, set_at, set_from, fill, set_from-fill, Pointwise,
  Result, ok, err, ◌>>=◌, map_err, >>=-eq-ok, ok-injective, or_fail, or_fail-eq-ok, Result-cases,
  guard-eq-ok, Bytes, AreBytes, codes, bytes_eq, bytes_eq_iff, put_u16_le, put_u32_be, from_be,
  u_be, Key, nat_key, bytes_key, beq_refl, lookup, insert, delete, lookup-insert, lookup-delete, ℕ,
  zero, suc, ◌+◌, ◌-◌, ◌*◌, ◌/◌, ◌%◌, ◌^◌, ◌≤◌, ◌<◌, ◌≡◌, refl, sym, ap, ◌∙◌, ◌≢◌, ◌↔◌, ◌⊎◌, inl,
  inr, Bool, true, false, not, ◌&&◌, ◌||◌, Option, none, some, List, [], ◌∷◌, ◌++◌, map, arith,
}
use chirpstack_gateway_bridg.Prelude.Int.{
  ℤ, pos, negsuc, negate, quotient, wrap, int64, mul_int64, is_zero_ℤ, int_sub, add_int,
  add_int-int_sub, sub_from, add_ℤ, sub_int, leb_ℤ, add_ℤ-sub_from,
}
use chirpstack_gateway_bridg.Decimal.{
  digits, format_uint, is_digit, read_digits, below, parse_uint, AreDigits, format_uint-AreDigits,
  format_uint-ne-nil, parse_uint_of, parse_uint-format_uint,
}
use chirpstack_gateway_bridg.SemtechUdp.PfConfig.{
  RadioConfig, MultiSfChannelConfig, LoraStdChannelConfig, FskChannelConfig, GatewayConfig,
  ConfigError, fsk_config_is_nil, fsk_already_configured, lora_config_is_nil,
  lora_std_already_configured, too_many_multi_sf_channels, invalid_modulation, radio_count,
  channel_count, bandwidth_in_hz, pf_bandwidth, pf_half_radio, pf_channel_min, pf_channel_max,
  pf_min_radio_center_freq, place_channel, place_channels, radio_covers, covering_radio, radio_freq,
  fsk_assigned, multi_sf_config, std_assigned, multi_sf_assigned, factors_assigned, lora_assigned,
  assigned, assign_channels, no_channel, radios_only, unset_radios, get_gateway_config,
}

pub data Field : Type 0 where
  bool_field : Bool → Field
  int_field : ℤ → Field
  text_field other_field : Bytes → Field

abbrev pub Object : Type 0
Object = List (Bytes × Field)

-- A value of `SX1301_conf`: an object, or not one.
pub data Section : Type 0 where
  object : Object → Section
  not_object : Field → Section

-- `configFile`; a map that the file does not have is nil, from which nothing is read.
pub record ConfigFile : Type 0 where
  pub sx1301_conf : List (Bytes × Section)
  pub gateway_conf : Option Object

-- `assignment_to_nil_map` is the panic of a file without `gateway_conf`.
pub data MergeError : Type 0 where
  not_of_type_map : Bytes → MergeError
  assignment_to_nil_map : MergeError

-- The keys that are set, with their fields, in the order of the source.
radio_updates : ℕ → List RadioConfig → List (Bytes × Object)
radio_updates i [] = []
radio_updates i (r ∷ rs) =
    (
      codes "radio_" ++ format_uint i,
      (codes "enable", bool_field r.enable) ∷ (codes "freq", int_field r.freq) ∷ [],
    )
    ∷ radio_updates (suc i) rs

multi_sf_updates : ℕ → List MultiSfChannelConfig → List (Bytes × Object)
multi_sf_updates i [] = []
multi_sf_updates i (c ∷ cs) =
    (
      codes "chan_multiSF_" ++ format_uint i,
      (codes "enable", bool_field c.enable)
          ∷ (codes "radio", int_field (pos c.radio))
          ∷ (codes "if", int_field c.if_freq)
          ∷ [],
    )
    ∷ multi_sf_updates (suc i) cs

lora_std_update : LoraStdChannelConfig → Bytes × Object
lora_std_update c = (
  codes "chan_Lora_std",
  (codes "enable", bool_field c.enable)
      ∷ (codes "radio", int_field (pos c.radio))
      ∷ (codes "if", int_field c.if_freq)
      ∷ (codes "bandwidth", int_field (pos c.bandwidth))
      ∷ (codes "spread_factor", int_field (pos c.spread_factor))
      ∷ [],
)

fsk_update : FskChannelConfig → Bytes × Object
fsk_update c = (
  codes "chan_FSK",
  (codes "enable", bool_field c.enable)
      ∷ (codes "radio", int_field (pos c.radio))
      ∷ (codes "if", int_field c.if_freq)
      ∷ (codes "bandwidth", int_field (pos c.bandwidth))
      ∷ (codes "datarate", int_field (pos c.data_rate))
      ∷ [],
)

unfoldable pub updates : GatewayConfig → List (Bytes × Object)
unfolding radio_updates multi_sf_updates lora_std_update fsk_update
updates gc =
    radio_updates 0 gc.radios
    ++ (multi_sf_updates 0 gc.multi_sf_channels
        ++ (lora_std_update gc.lora_std_channel_config ∷ fsk_update gc.fsk_channel_config ∷ []))

set_fields : Object → Object → Object
set_fields [] o = o
set_fields ((name, v) ∷ fs) o = set_fields fs (insert name v o)

-- The assertion that the value of a key is an object, and the assignments to its fields.
set_section :
    Bytes
    → Object
    → List (Bytes × Section)
    → Option Section
    → Result MergeError (List (Bytes × Section))
unfolding set_fields
set_section key fields conf (some (object o)) = ok (insert key (object (set_fields fields o)) conf)
set_section key fields conf (some (not_object f)) = err (not_of_type_map key)
set_section key fields conf none = err (not_of_type_map key)

unfoldable pub set_sections :
    List (Bytes × Object) → List (Bytes × Section) → Result MergeError (List (Bytes × Section))
unfolding set_section
set_sections [] conf = ok conf
set_sections ((key, fields) ∷ us) conf =
    set_section key fields conf (lookup key conf) >>= λ next. set_sections us next

-- `mergeConfig`, where `mac` is the text of the gateway's identifier.
unfoldable pub merge_config : Bytes → ConfigFile → GatewayConfig → Result MergeError ConfigFile
unfolding set_sections updates
merge_config mac config gc = do
  conf ← set_sections (updates gc) config.sx1301_conf
  gateway ← or_fail assignment_to_nil_map config.gateway_conf
  ok (record {
    sx1301_conf = conf;
    gateway_conf = some (insert (codes "gateway_ID") (text_field mac) gateway);
  })
