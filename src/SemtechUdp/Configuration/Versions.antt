-- ===== src/SemtechUdp/Configuration/Versions.antt =====
-- `ApplyConfiguration` of internal/backend/semtechudp/backend.go: which version the statistics then report.
use mathlib.Core.Path.{subst}
use chirpstack_gateway_bridg.Prelude.{
  map_err-eq-ok, if◌then◌else◌, Bool-cases, Result, ok, err, map_err, >>=-eq-ok, or_fail,
  or_fail-eq-ok, Bytes, bytes_eq, bytes_eq_iff, nat_key, bytes_key, ◌≡◌, refl, sym, ap, ◌∙◌, ◌⊎◌,
  inl, inr, Bool, true, false, Option, none, some, List, [], ◌∷◌, arith,
}
use chirpstack_gateway_bridg.Events.{copy_eui}
use chirpstack_gateway_bridg.Sx1301.Radios.{Channel}
use chirpstack_gateway_bridg.SemtechUdp.Backend.{PfConfiguration, config_version_of}
use chirpstack_gateway_bridg.SemtechUdp.PfConfig.{GatewayConfig, get_gateway_config}
use chirpstack_gateway_bridg.SemtechUdp.PfConfig.Merge.{ConfigFile, merge_config}
use chirpstack_gateway_bridg.SemtechUdp.Configuration.{
  GatewayConfiguration, Host, ApplyError, config_error, merge_error, read_file_error,
  unmarshal_config_error, write_file_error, no_restart_command, execute_command_error, HostEffect,
  writes_file, runs_command, ApplyOutcome, configuration_of, set_version, load_config_file,
  new_config_file, restart_parts, invoke_pf_restart, version_stored, restarted, written, apply_to,
  apply_gateway_configuration,
}

id_or : Bytes → Option PfConfiguration → Bytes
id_or id none = id
id_or id (some c) = c.gateway_id

configuration_of-gateway :
    (id : Bytes) (cs : List PfConfiguration) (found : Option PfConfiguration) (pf : PfConfiguration)
    → ((c : PfConfiguration) → found ≡ some c → c.gateway_id ≡ id)
    → configuration_of id cs found ≡ some pf
    → pf.gateway_id ≡ id
unfolding configuration_of id_or
configuration_of-gateway id [] found pf h e = h pf e
configuration_of-gateway id (c ∷ cs) found pf h e =
    configuration_of-gateway id cs (if bytes_eq c.gateway_id id then some c else found) pf
      (λ d k. step (bytes_eq c.gateway_id id) refl d k) e
  where
    step :
        (t : Bool)
        → bytes_eq c.gateway_id id ≡ t
        → (d : PfConfiguration) → (if t then some c else found) ≡ some d
        → d.gateway_id ≡ id
    step true same d k = ap (λ o. id_or id o) (sym k) ∙ (bytes_eq_iff c.gateway_id id).0 same
    step false other d k = h d k

bytes_eq_comm : (a b : Bytes) → bytes_eq a b ≡ bytes_eq b a
bytes_eq_comm a b = ground (arith, bytes_eq_iff a b, bytes_eq_iff b a)

config_version_of-set_version :
    (id version old : Bytes) (cs : List PfConfiguration) (found : Option PfConfiguration)
    (pf : PfConfiguration)
    → configuration_of id cs found ≡ some pf
    → (found ≡ none) ⊎ (old ≡ version)
    → config_version_of (set_version id version cs) id old ≡ version
unfolding configuration_of config_version_of set_version
config_version_of-set_version id version old [] found pf e (inl n) = cc
config_version_of-set_version id version old [] found pf e (inr s) = s
config_version_of-set_version id version old (c ∷ cs) found pf e h =
    elim (Bool-cases (bytes_eq c.gateway_id id)) [
      | inl same ↦
          rw (same, bytes_eq_comm id c.gateway_id, same)
            (config_version_of-set_version id version version cs (some c) pf (found_then same e)
              (inr refl))
      | inr other ↦
          rw (other, bytes_eq_comm id c.gateway_id, other)
            (config_version_of-set_version id version old cs found pf (found_else other e) h)
    ]
  where
    found_then :
        bytes_eq c.gateway_id id ≡ true
        → configuration_of id cs (if bytes_eq c.gateway_id id then some c else found) ≡ some pf
        → configuration_of id cs (some c) ≡ some pf
    found_then same k =
        ap (λ t. configuration_of id cs (if t then some c else found)) (sym same) ∙ k

    found_else :
        bytes_eq c.gateway_id id ≡ false
        → configuration_of id cs (if bytes_eq c.gateway_id id then some c else found) ≡ some pf
        → configuration_of id cs found ≡ some pf
    found_else other k =
        ap (λ t. configuration_of id cs (if t then some c else found)) (sym other) ∙ k

-- The version of another gateway stays.
config_version_of-set_version_other :
    (id version other old : Bytes) (cs : List PfConfiguration)
    → bytes_eq other id ≡ false
    → config_version_of (set_version id version cs) other old ≡ config_version_of cs other old
unfolding config_version_of set_version
config_version_of-set_version_other id version other old [] h = refl
config_version_of-set_version_other id version other old (c ∷ cs) h =
    elim (Bool-cases (bytes_eq c.gateway_id id)) [
      | inl same ↦
          let differs : bytes_eq other c.gateway_id ≡ false = ground (
            arith,
            bytes_eq_iff c.gateway_id id,
            bytes_eq_iff other c.gateway_id,
            bytes_eq_iff other id,
          ) in
          rw (same, differs) (config_version_of-set_version_other id version other old cs h)
      | inr not_same ↦ rw not_same (
          config_version_of-set_version_other id version other
            (if bytes_eq other c.gateway_id then c.current_version else old) cs h)
    ]

-- The text of the merge of the base file with the configuration that is planned for the channels.
abbrev pub IsNewFile : Host → PfConfiguration → List Channel → Bytes → Type 0
IsNewFile host pf channels bytes =
    (gc : GatewayConfig) × (text : Bytes) × (base : ConfigFile) × (merged : ConfigFile)
    × (get_gateway_config host.sort channels ≡ ok gc)
    × (host.read_file pf.base_file ≡ some text)
    × (host.config_json.unmarshal (host.remove_comments text) ≡ some base)
    × (merge_config (host.eui_text pf.gateway_id) base gc ≡ ok merged)
    × (host.config_json.marshal merged ≡ some bytes)

load_config_file-eq-ok :
    (host : Host) (path : Bytes) (base : ConfigFile)
    → load_config_file host path ≡ ok base
    → (text : Bytes) × (host.read_file path ≡ some text)
      × (host.config_json.unmarshal (host.remove_comments text) ≡ some base)
unfolding load_config_file
load_config_file-eq-ok host path base e =
    let (text, p, k) =
      >>=-eq-ok (or_fail read_file_error (host.read_file path))
        (λ bytes.
          or_fail unmarshal_config_error (host.config_json.unmarshal (host.remove_comments bytes)))
        e in
    (text, or_fail-eq-ok _ _ p, or_fail-eq-ok _ _ k)

new_config_file-IsNewFile :
    (host : Host) (pf : PfConfiguration) (channels : List Channel) (bytes : Bytes)
    → new_config_file host pf channels ≡ ok bytes
    → IsNewFile host pf channels bytes
unfolding new_config_file
new_config_file-IsNewFile host pf channels bytes e =
    let (gc, p, k) = >>=-eq-ok (map_err config_error (get_gateway_config host.sort channels)) _ e in
    let (base, q, l) = >>=-eq-ok (load_config_file host pf.base_file) _ k in
    let (merged, r, m) =
      >>=-eq-ok (map_err merge_error (merge_config (host.eui_text pf.gateway_id) base gc)) _ l in
    let (text, t, u) = load_config_file-eq-ok host pf.base_file base q in
    (
      gc,
      text,
      base,
      merged,
      map_err-eq-ok config_error _ p,
      t,
      u,
      map_err-eq-ok merge_error _ r,
      or_fail-eq-ok _ _ m,
    )

module _ (host : Host) (cs : List PfConfiguration) (pf : PfConfiguration)
    (config : GatewayConfiguration) where
  abbrev pub writes : Bytes → HostEffect
  writes bytes = writes_file pf.output_file bytes

  -- The four ways to fail, each with the calls that were made until then.
  abbrev pub NotMade : ApplyOutcome → Type 0
  NotMade o =
      (e : ApplyError) × (new_config_file host pf config.channels ≡ err e) × (o ≡ (err e, cs, []))

  abbrev pub NotWritten : ApplyOutcome → Type 0
  NotWritten o =
      (bytes : Bytes) × IsNewFile host pf config.channels bytes
      × (host.write_ok pf.output_file bytes ≡ false)
      × (o ≡ (err write_file_error, cs, writes bytes ∷ []))

  abbrev pub HasNoCommand : ApplyOutcome → Type 0
  HasNoCommand o =
      (bytes : Bytes) × IsNewFile host pf config.channels bytes
      × (host.write_ok pf.output_file bytes ≡ true)
      × (host.fields pf.restart_command ≡ [])
      × (o ≡ (err no_restart_command, cs, writes bytes ∷ []))

  abbrev pub NotRun : ApplyOutcome → Type 0
  NotRun o =
      (bytes : Bytes) × (command : Bytes) × (args : List Bytes) × IsNewFile host pf config.channels
        bytes
      × (host.write_ok pf.output_file bytes ≡ true)
      × (host.fields pf.restart_command ≡ command ∷ args)
      × (host.run_ok command args ≡ false)
      × (o ≡ (err execute_command_error, cs, writes bytes ∷ runs_command command args ∷ []))

  -- The version of the call is that of its gateway, and those of others stay.
  abbrev pub StoresVersion : List PfConfiguration → Type 0
  StoresVersion cs' =
      ((old : Bytes) → config_version_of cs' (copy_eui config.gateway_id) old ≡ config.version)
      × ((other old : Bytes)
          → bytes_eq other (copy_eui config.gateway_id) ≡ false
          → config_version_of cs' other old ≡ config_version_of cs other old)

  abbrev pub Applied : ApplyOutcome → Type 0
  Applied o =
      (bytes : Bytes) × (command : Bytes) × (args : List Bytes) × IsNewFile host pf config.channels
        bytes
      × (host.write_ok pf.output_file bytes ≡ true)
      × (host.fields pf.restart_command ≡ command ∷ args)
      × (host.run_ok command args ≡ true)
      × (o.0 ≡ ok tt)
      × StoresVersion o.1
      × (o.2 ≡ writes bytes ∷ runs_command command args ∷ [])

  abbrev pub LeavesVersion : ApplyOutcome → Type 0
  LeavesVersion o = NotMade o ⊎ (NotWritten o ⊎ (HasNoCommand o ⊎ (NotRun o ⊎ Applied o)))

  set_version-StoresVersion :
      configuration_of (copy_eui config.gateway_id) cs none ≡ some pf
      → StoresVersion (set_version pf.gateway_id config.version cs)
  set_version-StoresVersion h =
      let id = copy_eui config.gateway_id in
      let same = configuration_of-gateway id cs none pf (λ c k. cc) h in
      (
        λ old.
            ap (λ i. config_version_of (set_version i config.version cs) id old) same
            ∙ config_version_of-set_version id config.version old cs none pf h (inl refl),
        λ other old differs.
            ap (λ i. config_version_of (set_version i config.version cs) other old) same
            ∙ config_version_of-set_version_other id config.version other old cs differs,
      )

  restarted-LeavesVersion :
      (bytes : Bytes) (parts : List Bytes)
      → configuration_of (copy_eui config.gateway_id) cs none ≡ some pf
      → IsNewFile host pf config.channels bytes
      → host.write_ok pf.output_file bytes ≡ true
      → host.fields pf.restart_command ≡ parts
      → LeavesVersion (restarted host cs pf config.version bytes (restart_parts host parts))
  unfolding restarted restart_parts version_stored
  restarted-LeavesVersion bytes [] h new w p = inr (inr (inl (bytes, new, w, p, refl)))
  restarted-LeavesVersion bytes (command ∷ args) h new w p =
      elim (Bool-cases (host.run_ok command args)) [
        | inl t ↦ inr (
            inr (
              inr (
                inr (
                  bytes,
                  command,
                  args,
                  new,
                  w,
                  p,
                  t,
                  rw t refl,
                  rw t (set_version-StoresVersion h),
                  refl,
                ))))
        | inr f ↦ inr (inr (inr (inl (bytes, command, args, new, w, p, f, rw f refl))))
      ]

  written-LeavesVersion :
      (m : Result ApplyError Bytes)
      → configuration_of (copy_eui config.gateway_id) cs none ≡ some pf
      → new_config_file host pf config.channels ≡ m
      → LeavesVersion (written host cs pf config.version m)
  unfolding written invoke_pf_restart
  written-LeavesVersion (err e) h p = inl (e, p, refl)
  written-LeavesVersion (ok bytes) h p =
      let new = new_config_file-IsNewFile host pf config.channels bytes p in
      elim (Bool-cases (host.write_ok pf.output_file bytes)) [
        | inl t ↦ rw t (restarted-LeavesVersion bytes (host.fields pf.restart_command) h new t refl)
        | inr f ↦ inr (inl (bytes, new, f, rw f refl))
      ]

-- For a gateway that has a configuration of its packet-forwarder, one of five things happens. No new file can be made: the call returns
-- its error, and writes and runs nothing. Else it writes to the output file the text of the base file merged with the configuration of the
-- channels. If this fails, or if the restart command is empty, the call returns the error and runs nothing; otherwise it runs the
-- command with its arguments. If the command fails, the call returns an error. In all these cases the versions are as before. If it
-- succeeds, the call returns no error, and the statistics of the gateway report the version of the call, those of others what they did.
pub apply_gateway_configuration-version :
    (host : Host) (cs : List PfConfiguration) (pf : PfConfiguration) (config : GatewayConfiguration)
    → configuration_of (copy_eui config.gateway_id) cs none ≡ some pf
    → LeavesVersion host cs pf config (apply_gateway_configuration host cs config)
unfolding apply_gateway_configuration apply_to
apply_gateway_configuration-version host cs pf config h =
    subst (λ o. LeavesVersion host cs pf config (apply_to host cs config o)) (sym h)
      (written-LeavesVersion host cs pf config (new_config_file host pf config.channels) h refl)
