-- ===== src/SemtechUdp/PfConfig/Merge/Fields.antt =====
-- `mergeConfig` of internal/backend/semtechudp/pf_config.go: what a merged configuration has.
use chirpstack_gateway_bridg.Prelude.{
  if◌then◌else◌, Option-cases, Result, ok, ◌>>=◌, >>=-eq-ok, ok-injective, or_fail, or_fail-eq-ok,
  Bytes, codes, bytes_eq, nat_key, bytes_key, lookup, insert, lookup-insert, ◌≡◌, sym, ap, ◌∙◌, ◌⊎◌,
  inl, inr, Option, none, some, List,
}
use chirpstack_gateway_bridg.SemtechUdp.PfConfig.{GatewayConfig}
use chirpstack_gateway_bridg.SemtechUdp.PfConfig.Merge.{
  Field, text_field, Object, Section, ConfigFile, MergeError, assignment_to_nil_map, updates,
  set_sections, merge_config,
}
use chirpstack_gateway_bridg.SemtechUdp.PfConfig.Merge.Kept.{
  field_of, or_else, update_of, set_sections-field,
}
use chirpstack_gateway_bridg.SemtechUdp.PfConfig.Merge.Entries.{
  update_of-IsUpdate, IsUpdate-update_of,
}
use chirpstack_gateway_bridg.SemtechUdp.PfConfig.Merge.Settings.{Sets, updates-Sets, Sets-updates}

abbrev pub object_field : Bytes → Option Object → Option Field
object_field name none = none
object_field name (some o) = lookup name o

abbrev pub gateway_field : ConfigFile → Bytes → Option Field
gateway_field config name = object_field name config.gateway_conf

-- A field that the new configuration sets has a value that it sets, and any other field its value in the file.
abbrev pub IsMerged : GatewayConfig → ConfigFile → ConfigFile → Bytes → Bytes → Type 0
IsMerged gc config merged key name =
    ((v : Field) × Sets gc key name v × (field_of merged.sx1301_conf key name ≡ some v))
    ⊎ (((v : Field) → ¬ Sets gc key name v)
        × (field_of merged.sx1301_conf key name ≡ field_of config.sx1301_conf key name))

field-IsMerged :
    (gc : GatewayConfig) (config merged : ConfigFile) (key name : Bytes)
    → field_of merged.sx1301_conf key name
      ≡ or_else (update_of key name (updates gc)) (field_of config.sx1301_conf key name)
    → IsMerged gc config merged key name
field-IsMerged gc config merged key name e = elim (Option-cases (update_of key name (updates gc))) [
  | inl n ↦ inr (
    λ v s. IsUpdate-update_of key name v (updates gc) (Sets-updates gc key name v s) n,
    e ∙ ap (λ o. or_else o (field_of config.sx1301_conf key name)) n,
  )
  | inr (v, s) ↦ inl (
    v,
    updates-Sets gc key name v (update_of-IsUpdate key name v (updates gc) s),
    e ∙ ap (λ o. or_else o (field_of config.sx1301_conf key name)) s,
  )
]

-- The rest of `mergeConfig`.
abbrev with_gateway : Bytes → ConfigFile → List (Bytes × Section) → Result MergeError ConfigFile
with_gateway mac config conf = do
  gateway ← or_fail assignment_to_nil_map config.gateway_conf
  ok (record {
    sx1301_conf = conf;
    gateway_conf = some (insert (codes "gateway_ID") (text_field mac) gateway);
  })

-- In a merged configuration each field of each object of `SX1301_conf` has the value that the new configuration sets for it, if it sets one,
-- and else that of the file. It sets `enable` and `freq` of the radios, `enable`, `radio` and `if` of the multi-SF channels, these with
-- `bandwidth` and `spread_factor` of the standard channel, and with `bandwidth` and `datarate` of the FSK channel. In
-- `gateway_conf`, only the identifier of the gateway changes.
pub merge_config-fields :
    (mac : Bytes) (config merged : ConfigFile) (gc : GatewayConfig) (key name : Bytes)
    → merge_config mac config gc ≡ ok merged
    → IsMerged gc config merged key name
      × (gateway_field merged name ≡ (
          if bytes_eq (codes "gateway_ID") name
          then some (text_field mac)
          else gateway_field config name))
unfolding merge_config
merge_config-fields mac config merged gc key name e =
    let (conf, p, k) =
      >>=-eq-ok (set_sections (updates gc) config.sx1301_conf) (with_gateway mac config) e in
    let (gateway, q, f) =
      >>=-eq-ok (or_fail assignment_to_nil_map config.gateway_conf)
        (λ gateway. ok (record {
          sx1301_conf = conf;
          gateway_conf = some (insert (codes "gateway_ID") (text_field mac) gateway);
        }))
        k in
    (
      field-IsMerged gc config merged key name (
          ap (λ c. field_of c.sx1301_conf key name) (sym (ok-injective f))
          ∙ set_sections-field (updates gc) config.sx1301_conf conf p key name),
      ap (λ c. gateway_field c name) (sym (ok-injective f))
          ∙ lookup-insert (codes "gateway_ID") name (text_field mac) gateway
          ∙ ap (λ o. if bytes_eq (codes "gateway_ID") name then some (text_field mac) else o)
              (sym (
                ap (object_field name)
                  (or_fail-eq-ok assignment_to_nil_map config.gateway_conf q))),
    )
