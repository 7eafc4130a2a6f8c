-- ===== src/Basicstation/Backend/Transmitted.antt =====
-- internal/backend/basicstation/backend.go: from the downlink that a station has sent back to the frame of the
-- network-server.
use chirpstack_gateway_bridg.Prelude.{
  All, Result, ok, err, Bytes, nat_key, bytes_key, lookup, lookup-insert, ℕ, ◌%◌, ◌≡◌, refl, ap,
  ◌∙◌, ◌≢◌, Option, none, some, List, [], ◌∷◌, arith,
}
use chirpstack_gateway_bridg.Platform.{Platform, DownlinkFrame}
use chirpstack_gateway_bridg.Basicstation.Gateways.{Gateways}
use chirpstack_gateway_bridg.Basicstation.Structs.{Station}
use chirpstack_gateway_bridg.Basicstation.Structs.Uplinks.{downlink_transmitted_to_proto}
use chirpstack_gateway_bridg.Basicstation.Structs.Downlink.{
  DownlinkMessage, DownlinkError, downlink_frame_from_proto,
}
use chirpstack_gateway_bridg.Basicstation.Structs.RouterConfig.{RouterConfig}
use chirpstack_gateway_bridg.Basicstation.Backend.{
  StationBackend, WebsocketKind, text_message, StationOutput, station_tx_ack, StationError,
  StationEnv,
}
use chirpstack_gateway_bridg.Basicstation.Backend.Commands.{
  station_token, store_and_send, send_with_token, send_downlink,
}
use chirpstack_gateway_bridg.Basicstation.Backend.Messages.{
  downlink_transmitted_message, downlink_of, handle_downlink_transmitted, decoded, handle_text,
  handle_message,
}
use chirpstack_gateway_bridg.Basicstation.Backend.Messages.State.{
  send_to_gateway-Keeps, handle_message-Keeps,
}

-- What happens between two calls: a message of a station, a downlink, and a change of the registry by a connection.
pub data StationRequest {w : Platform} (s : Station w) : Type 1 where
  receives_message :
      StationEnv s → Option RouterConfig → Bytes → WebsocketKind → Bytes → StationRequest s
  sends_downlink : StationEnv s → DownlinkFrame w.Duration → StationRequest s
  connects_or_leaves : Gateways → StationRequest s

module _ {w : Platform} {s : Station w} where
  abbrev pub serve_stations : StationBackend → List (StationRequest s) → StationBackend
  serve_stations b [] = b
  serve_stations b (receives_message env config id kind msg ∷ rs) =
      serve_stations (handle_message env b config id kind msg).1 rs
  serve_stations b (sends_downlink env frame ∷ rs) = serve_stations (send_downlink env b frame).1 rs
  serve_stations b (connects_or_leaves g ∷ rs) = serve_stations (record b { gateways = g }) rs

  -- The request is a downlink whose token has these 16 bits.
  abbrev pub UsesToken : ℕ → StationRequest s → Type 0
  UsesToken t (receives_message env config id kind msg) = ⊥
  UsesToken t (sends_downlink env frame) =
      (n : ℕ) × (station_token env frame ≡ ok n) × (n % 65536 ≡ t)
  UsesToken t (connects_or_leaves g) = ⊥

  store_and_send-other :
      (env : StationEnv s) (b : StationBackend) (frame : DownlinkFrame w.Duration) (n t : ℕ)
      (m : Result DownlinkError DownlinkMessage)
      → n % 65536 ≢ t
      → lookup t (store_and_send env b frame n m).1.diid_map ≡ lookup t b.diid_map
  unfolding store_and_send
  store_and_send-other env b frame n t (err e) h = refl
  store_and_send-other env b frame n t (ok m) h =
      ap (λ c. lookup t c.diid_map) (send_to_gateway-Keeps env _ _ (env.downlink_json.marshal m))
      ∙ lookup-insert (n % 65536) t frame.downlink_id b.diid_map
      ∙ ground arith

  send_with_token-other :
      (env : StationEnv s) (b : StationBackend) (frame : DownlinkFrame w.Duration)
      (m : Result StationError ℕ) (t : ℕ)
      → ((n : ℕ) → m ≡ ok n → n % 65536 ≢ t)
      → lookup t (send_with_token env b frame m).1.diid_map ≡ lookup t b.diid_map
  unfolding send_with_token
  send_with_token-other env b frame (err e) t h = refl
  send_with_token-other env b frame (ok n) t h =
      store_and_send-other env b frame n t
        (downlink_frame_from_proto s (record frame { token = n })) (h n refl)

  serve_stations-token :
      (rs : List (StationRequest s)) (b : StationBackend) (t : ℕ)
      → All (λ r. ¬ UsesToken t r) rs
      → lookup t (serve_stations b rs).diid_map ≡ lookup t b.diid_map
  unfolding send_downlink
  serve_stations-token [] b t h = refl
  serve_stations-token (receives_message env config id kind msg ∷ rs) b t h =
      serve_stations-token rs (handle_message env b config id kind msg).1 t h.1
      ∙ ap (λ c. lookup t c.diid_map) (handle_message-Keeps env b config id kind msg)
  serve_stations-token (sends_downlink env frame ∷ rs) b t h =
      serve_stations-token rs (send_downlink env b frame).1 t h.1
      ∙ send_with_token-other env b frame (station_token env frame) t (λ n e k. h.0 (n, e, k))
  serve_stations-token (connects_or_leaves g ∷ rs) b t h =
      serve_stations-token rs (record b { gateways = g }) t h.1

  send_downlink-stores :
      (env : StationEnv s) (b : StationBackend) (frame : DownlinkFrame w.Duration) (token : ℕ)
      (m : DownlinkMessage)
      → station_token env frame ≡ ok token
      → downlink_frame_from_proto s (record frame { token = token }) ≡ ok m
      → lookup (token % 65536) (send_downlink env b frame).1.diid_map ≡ some frame.downlink_id
  unfolding send_downlink send_with_token store_and_send
  send_downlink-stores env b frame token m e k =
      ap (λ r. lookup (token % 65536) (send_with_token env b frame r).1.diid_map) e
      ∙ ap (λ r. lookup (token % 65536) (store_and_send env b frame token r).1.diid_map) k
      ∙ ap (λ c. lookup (token % 65536) c.diid_map)
          (send_to_gateway-Keeps env _ _ (env.downlink_json.marshal m))
      ∙ lookup-insert (token % 65536) (token % 65536) frame.downlink_id b.diid_map
      ∙ ground arith

  -- After a downlink whose message can be made, and then any messages, downlinks and changes of the registry of which no
  -- downlink uses the same 16 bits of a token, the message that a downlink with these 16 bits of its number was sent
  -- is passed on as the acknowledgement of that downlink. The sending of the downlink may itself have failed.
  pub transmitted-finds-downlink :
      (env env' : StationEnv s) (b : StationBackend) (frame : DownlinkFrame w.Duration) (token : ℕ)
      (m : DownlinkMessage) (rs : List (StationRequest s)) (config : Option RouterConfig)
      (id msg : Bytes) (diid : ℕ)
      → station_token env frame ≡ ok token
      → downlink_frame_from_proto s (record frame { token = token }) ≡ ok m
      → All (λ r. ¬ UsesToken (token % 65536) r) rs
      → env'.message_type msg ≡ some downlink_transmitted_message
      → env'.unmarshal_transmitted msg ≡ some diid
      → diid % 65536 ≡ token % 65536
      → (handle_message env'
          (serve_stations (send_downlink env b frame).1 rs)
          config
          id
          text_message
          msg).2
        ≡ station_tx_ack
            (record { gateway_id = id; token = diid; downlink_id = frame.downlink_id; error = [] })
          ∷ []
  unfolding handle_message handle_text handle_downlink_transmitted downlink_of
      downlink_transmitted_to_proto
  transmitted-finds-downlink env env' b frame token m rs config id msg diid e k h kind dec same =
      let last = serve_stations (send_downlink env b frame).1 rs in
      ap (λ o. (handle_text env' last config id msg o).2) kind
      ∙ ap (λ o. (decoded env' last o (handle_downlink_transmitted env' last id)).2) dec
      ∙ ap (λ t. acked (elim (lookup t last.diid_map) [ none ↦ [] | some d ↦ d ])) same
      ∙ ap (λ o. acked (elim o [ none ↦ [] | some d ↦ d ]))
          (serve_stations-token rs (send_downlink env b frame).1 (token % 65536) h
            ∙ send_downlink-stores env b frame token m e k)
    where
      acked : Bytes → List (StationOutput w)
      acked d =
          station_tx_ack (record { gateway_id = id; token = diid; downlink_id = d; error = [] })
          ∷ []
