-- ===== src/Basicstation/Backend/Messages/State.antt =====
-- internal/backend/basicstation/backend.go: the messages of the stations leave the state of the backend.
use chirpstack_gateway_bridg.Prelude.{
  if◌then◌else◌, Option-cases, Result, ok, err, Bytes, bytes_eq, nat_key, bytes_key, ◌≡◌, refl, inl,
  inr, Bool, true, false, Option, none, some,
}
use chirpstack_gateway_bridg.Platform.{Platform, UplinkFrame}
use chirpstack_gateway_bridg.Basicstation.Gateways.{Gateway, RegistryError, get}
use chirpstack_gateway_bridg.Basicstation.Structs.{Station, UplinkError}
use chirpstack_gateway_bridg.Basicstation.Structs.RouterConfig.{RouterConfig}
use chirpstack_gateway_bridg.Basicstation.Backend.{
  StationBackend, WebsocketKind, text_message, binary_message, StationEnv, StationOutcome, write_to,
  marshaled_to, send_to_gateway,
}
use chirpstack_gateway_bridg.Basicstation.Backend.Messages.{
  version_message, join_request_message, uplink_data_frame_message, proprietary_data_frame_message,
  downlink_transmitted_message, identified, uplink_converted, handle_join_request,
  handle_proprietary_data_frame, handle_uplink_data_frame, handle_downlink_transmitted,
  raw_identified, handle_raw_event, version_stats, version_of, handle_version, decoded, handle_text,
  handle_message,
}

module _ {w : Platform} where
  abbrev pub Keeps : StationBackend → StationOutcome w → Type 0
  Keeps b o = o.1 ≡ b

  if-Keeps :
      (b : StationBackend) (t : Bool) (x y : StationOutcome w)
      → Keeps b x
      → Keeps b y
      → Keeps b (if t then x else y)
  if-Keeps b true x y h k = h
  if-Keeps b false x y h k = k

module _ {w : Platform} {s : Station w} where
  write_to-Keeps :
      (env : StationEnv s) (b : StationBackend) (kind : WebsocketKind) (bytes : Bytes)
      (m : Result RegistryError Gateway)
      → Keeps b (write_to env b kind bytes m)
  unfolding write_to
  write_to-Keeps env b kind bytes (err e) = refl
  write_to-Keeps env b kind bytes (ok g) = refl

  pub send_to_gateway-Keeps :
      (env : StationEnv s) (b : StationBackend) (id : Bytes) (m : Option Bytes)
      → Keeps b (send_to_gateway env b id m)
  unfolding send_to_gateway marshaled_to
  send_to_gateway-Keeps env b id m = go m (get b.gateways id)
    where
      go : (m : Option Bytes) (g : Result RegistryError Gateway) → Keeps b (marshaled_to env b m g)
      go m (err e) = refl
      go none (ok g) = refl
      go (some bytes) (ok g) = write_to-Keeps env b text_message bytes (ok g)

  uplink_converted-Keeps :
      (env : StationEnv s) (b : StationBackend) (m : Result UplinkError (UplinkFrame w))
      → Keeps b (uplink_converted env b m)
  unfolding uplink_converted identified
  uplink_converted-Keeps env b (err e) = refl
  uplink_converted-Keeps env b (ok frame) = elim (Option-cases env.uuid) [
    | inl n ↦ rw n refl
    | inr (id, e) ↦ rw e refl
  ]

  handle_raw_event-Keeps :
      (env : StationEnv s) (b : StationBackend) (id msg : Bytes)
      → Keeps b (handle_raw_event env b id msg)
  unfolding handle_raw_event raw_identified
  handle_raw_event-Keeps env b id msg = elim (Option-cases env.uuid) [
    | inl n ↦ rw n refl
    | inr (id, e) ↦ rw e refl
  ]

  handle_version-Keeps :
      (env : StationEnv s) (b : StationBackend) (config : Option RouterConfig) (id : Bytes)
      → Keeps b (handle_version env b config id)
  unfolding handle_version version_of version_stats
  handle_version-Keeps env b config id = go config (get b.gateways id) (w.timestamp_proto env.now)
    where
      go :
          (config : Option RouterConfig) (g : Result RegistryError Gateway)
          (ts : Option w.Timestamp)
          → Keeps b (version_of env b id config g ts)
      go config (err e) ts = refl
      go config (ok g) none = refl
      go none (ok g) (some ts) = refl
      go (some c) (ok g) (some ts) = send_to_gateway-Keeps env b id (env.router_json.marshal c)

  decoded-Keeps :
      {A : Type 0} (env : StationEnv s) (b : StationBackend) (o : Option A)
      (h : A → StationOutcome w)
      → ((v : A) → Keeps b (h v))
      → Keeps b (decoded env b o h)
  unfolding decoded
  decoded-Keeps env b none h k = refl
  decoded-Keeps env b (some v) h k = k v

  handle_text-Keeps :
      (env : StationEnv s) (b : StationBackend) (config : Option RouterConfig) (id msg : Bytes)
      (m : Option Bytes)
      → Keeps b (handle_text env b config id msg m)
  unfolding handle_text handle_downlink_transmitted handle_uplink_data_frame handle_join_request
      handle_proprietary_data_frame
  handle_text-Keeps env b config id msg none = refl
  handle_text-Keeps env b config id msg (some kind) =
      if-Keeps b (bytes_eq kind version_message) _ _
        (if-Keeps b (env.is_version msg) _ _ (handle_version-Keeps env b config id) refl)
        (if-Keeps b (bytes_eq kind uplink_data_frame_message) _ _
          (decoded-Keeps env b (env.unmarshal_uplink msg) (handle_uplink_data_frame env b id)
            (λ v. uplink_converted-Keeps env b _))
          (if-Keeps b (bytes_eq kind join_request_message) _ _
            (decoded-Keeps env b (env.unmarshal_join_request msg) (handle_join_request env b id)
              (λ v. uplink_converted-Keeps env b _))
            (if-Keeps b (bytes_eq kind proprietary_data_frame_message) _ _
              (decoded-Keeps env b (env.unmarshal_proprietary msg)
                (handle_proprietary_data_frame env b id) (λ v. uplink_converted-Keeps env b _))
              (if-Keeps b (bytes_eq kind downlink_transmitted_message) _ _
                (decoded-Keeps env b (env.unmarshal_transmitted msg)
                  (handle_downlink_transmitted env b id) (λ v. refl))
                (handle_raw_event-Keeps env b id msg)))))

  -- No message of a station changes the state of the backend.
  pub handle_message-Keeps :
      (env : StationEnv s) (b : StationBackend) (config : Option RouterConfig) (id : Bytes)
      (kind : WebsocketKind) (msg : Bytes)
      → Keeps b (handle_message env b config id kind msg)
  unfolding handle_message
  handle_message-Keeps env b config id binary_message msg = handle_raw_event-Keeps env b id msg
  handle_message-Keeps env b config id text_message msg =
      handle_text-Keeps env b config id msg (env.message_type msg)
