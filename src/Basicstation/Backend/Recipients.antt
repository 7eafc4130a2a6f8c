-- ===== src/Basicstation/Backend/Recipients.antt =====
-- internal/backend/basicstation/backend.go: to which connections the backend writes, with the calls of
-- `handleGateway` that fill the registry.

use chirpstack_gateway_bridg.Prelude.{
  Bool-cases, All, Result, ok, err, or_fail-eq-ok, Bytes, nat_key, bytes_key, lookup, ℕ, ◌≡◌, refl,
  sym, ap, ◌∙◌, inl, inr, Option, none, some, List, [], ◌∷◌,
}
use chirpstack_gateway_bridg.Events.{copy_eui}
use chirpstack_gateway_bridg.Platform.{Platform, DownlinkFrame}
use chirpstack_gateway_bridg.Sx1301.Radios.{Channel}
use chirpstack_gateway_bridg.Basicstation.Gateways.{Gateway, RegistryError, get}
use chirpstack_gateway_bridg.Basicstation.Sessions.{registered, World, Reach}
use chirpstack_gateway_bridg.Basicstation.Sessions.Registered.{Reach-AreOpen}
use chirpstack_gateway_bridg.Basicstation.Sessions.Later.{Later, IsServingOrEnded, Later-serving}
use chirpstack_gateway_bridg.Basicstation.Structs.{Station}
use chirpstack_gateway_bridg.Basicstation.Structs.Downlink.{
  DownlinkMessage, DownlinkError, downlink_frame_from_proto,
}
use chirpstack_gateway_bridg.Basicstation.Structs.RouterConfig.{
  Region, Band, RouterConfig, RouterError, get_router_config_old,
}
use chirpstack_gateway_bridg.Basicstation.Backend.{
  StationBackend, RawPacket, WebsocketKind, text_message, StationOutput, websocket_write,
  station_uplink, station_tx_ack, station_stats, raw_event, StationError, StationEnv, write_to,
  send_raw_to_gateway, marshaled_to, send_to_gateway,
}
use chirpstack_gateway_bridg.Basicstation.Backend.Commands.{
  station_token, store_and_send, send_with_token, send_downlink, apply_router_config,
  apply_configuration, kind_of, raw_command_of, raw_packet_forwarder_command,
}
use chirpstack_gateway_bridg.SemtechUdp.Backend.{gateway_id_of}

-- The connections that are written to.
abbrev pub writes : {w : Platform} → List (StationOutput w) → List ℕ
writes [] = []
writes (websocket_write c kind bytes ∷ os) = c ∷ writes os
writes (station_uplink f ∷ os) = writes os
writes (station_tx_ack a ∷ os) = writes os
writes (station_stats g ∷ os) = writes os
writes (raw_event e ∷ os) = writes os

-- Whether the connection has a call that is in its loop for the gateway.
abbrev pub IsServing : World → Bytes → ℕ → Type 0
IsServing v id c = lookup c v.sessions ≡ some (registered id)

-- The connection was in its loop for the gateway when the gateway was looked up, and is still in it when the message is
-- written, unless its call has ended.
abbrev pub WasFound : World → World → Bytes → ℕ → Type 0
WasFound v u id c = IsServing v id c × IsServingOrEnded u id c

module _ {w : Platform} {s : Station w} (env : StationEnv s) (unmarshal : Bytes → Option Bytes)
    (v u : World) (b : StationBackend) (r : Reach unmarshal v) (l : Later unmarshal v u)
    (same : b.gateways ≡ v.gateways) where
  -- `b` is a backend with the registry of a reachable state, in which the gateway is looked up, and `u` is the state when
  -- the message is written.
  ServesAll : Bytes → List (StationOutput w) → Type 0
  ServesAll id os = All (WasFound v u id) (writes os)

  write_to-ServesAll :
      (gs : List (ℕ × Bytes)) (id : Bytes) (kind : WebsocketKind) (bytes : Bytes) (g : Gateway)
      → lookup id b.gateways ≡ some g
      → ServesAll id (write_to env (record b { diid_map = gs }) kind bytes (ok g)).2
  unfolding write_to ServesAll
  write_to-ServesAll gs id kind bytes g e = elim (Bool-cases (env.write_ok g.conn bytes)) [
    | inl t ↦
        let serving = Reach-AreOpen unmarshal v id g r (ap (lookup id) (sym same) ∙ e) in
        rw t ((serving, Later-serving id g.conn l serving), tt)
    | inr f ↦ rw f tt
  ]

  raw_to-ServesAll :
      (id : Bytes) (kind : WebsocketKind) (bytes : Bytes) (m : Result RegistryError Gateway)
      → get b.gateways id ≡ m
      → ServesAll id (write_to env b kind bytes m).2
  unfolding write_to get
  raw_to-ServesAll id kind bytes (err e) h = unfold ServesAll in tt
  raw_to-ServesAll id kind bytes (ok g) h =
      write_to-ServesAll b.diid_map id kind bytes g (or_fail-eq-ok _ (lookup id b.gateways) h)

  marshaled_to-ServesAll :
      (gs : List (ℕ × Bytes)) (id : Bytes) (m : Option Bytes) (e : Result RegistryError Gateway)
      → get b.gateways id ≡ e
      → ServesAll id (marshaled_to env (record b { diid_map = gs }) m e).2
  unfolding marshaled_to get
  marshaled_to-ServesAll gs id m (err e) h = unfold ServesAll in tt
  marshaled_to-ServesAll gs id none (ok g) h = unfold ServesAll in tt
  marshaled_to-ServesAll gs id (some bytes) (ok g) h =
      write_to-ServesAll gs id text_message bytes g (or_fail-eq-ok _ (lookup id b.gateways) h)

  send_with_token-ServesAll :
      (frame : DownlinkFrame w.Duration) (m : Result StationError ℕ)
      → ServesAll (copy_eui (gateway_id_of frame.tx_info)) (send_with_token env b frame m).2
  unfolding send_with_token
  send_with_token-ServesAll frame (err e) = unfold ServesAll in tt
  send_with_token-ServesAll frame (ok n) =
      made (downlink_frame_from_proto s (record frame { token = n }))
    where
      made :
          (m : Result DownlinkError DownlinkMessage)
          → ServesAll (copy_eui (gateway_id_of frame.tx_info)) (store_and_send env b frame n m).2
      made (err e) = unfold store_and_send in unfold ServesAll in tt
      made (ok m) =
          unfold store_and_send in
          unfold send_to_gateway in
          marshaled_to-ServesAll _ (copy_eui (gateway_id_of frame.tx_info))
            (env.downlink_json.marshal m) (get b.gateways (copy_eui (gateway_id_of frame.tx_info)))
            refl

  apply_router_config-ServesAll :
      (id : Bytes) (m : Result RouterError RouterConfig)
      → ServesAll (copy_eui id) (apply_router_config env b id m).2
  unfolding apply_router_config send_to_gateway
  apply_router_config-ServesAll id (err e) = unfold ServesAll in tt
  apply_router_config-ServesAll id (ok c) =
      marshaled_to-ServesAll b.diid_map (copy_eui id) (env.router_json.marshal c)
        (get b.gateways (copy_eui id)) refl

  raw_command_of-ServesAll : (id payload : Bytes) → ServesAll id (raw_command_of env b id payload).2
  unfolding raw_command_of send_raw_to_gateway
  raw_command_of-ServesAll id [] = unfold ServesAll in tt
  raw_command_of-ServesAll id (x ∷ xs) =
      raw_to-ServesAll id (kind_of env (x ∷ xs)) (x ∷ xs) (get b.gateways id) refl

  -- A downlink, a configuration and a raw command look up the gateway in the registry, and write to the connection that they
  -- have found when they no longer hold its lock. In any interleaving of the calls of the connections before the lookup, and
  -- in any between the lookup and the write, they write to no connection but one that was in its loop for the gateway they are
  -- for when it was looked up, and which is still in this loop at the time of the write or has ended. A number stands for one connection.
  pub commands-IsServing :
      (frame : DownlinkFrame w.Duration) (sort : List Channel → List Channel) (region : Region)
      (band : Option Band) (net_ids : List Bytes) (join_euis : List (Bytes × Bytes)) (range : ℕ × ℕ)
      (id : Bytes) (channels : List Channel) (pl : RawPacket)
      → All
          (WasFound v u (copy_eui (gateway_id_of frame.tx_info)))
          (writes (send_downlink env b frame).2)
        × All (WasFound v u (copy_eui id)) (
            writes
              (apply_configuration env b sort region band net_ids join_euis range id channels).2)
        × All
            (WasFound v u (copy_eui pl.gateway_id))
            (writes (raw_packet_forwarder_command env b pl).2)
  unfolding ServesAll send_downlink apply_configuration raw_packet_forwarder_command
  commands-IsServing frame sort region band net_ids join_euis range id channels pl = (
    send_with_token-ServesAll frame (station_token env frame),
    apply_router_config-ServesAll id
        (get_router_config_old sort region band net_ids join_euis range channels),
    raw_command_of-ServesAll (copy_eui pl.gateway_id) pl.payload,
  )
