-- ===== src/SemtechUdp/Backend/Downlinks.antt =====
-- internal/backend/semtechudp/backend.go: from a downlink to the gateway, and back to its acknowledgement.
use mathlib.Core.Path.{subst}
use chirpstack_gateway_bridg.Prelude.{
  bytes_eq, bytes_eq_iff, ◌==◌, if◌then◌else◌, All, Result, ok, err, or_fail, Bytes, nat_key,
  bytes_key, lookup, insert, lookup-insert, ℕ, ◌%◌, ◌≡◌, refl, sym, ap, ◌∙◌, ◌≢◌, Bool, true, false,
  none, some, List, [], ◌∷◌, arith,
}
use chirpstack_gateway_bridg.Platform.{Platform, DownlinkFrame}
use chirpstack_gateway_bridg.Events.{copy_eui}
use chirpstack_gateway_bridg.Packets.{
  PacketType, push_data, push_ack, pull_data, tx_ack, PacketError, get_packet_type, header,
}
use chirpstack_gateway_bridg.Packets.Polls.{
  PullDataPacket, unmarshal_pull_data, marshal_pull_ack, marshal_push_ack,
}
use chirpstack_gateway_bridg.Packets.TxAck.{TxAckPacket, unmarshal_tx_ack}
use chirpstack_gateway_bridg.Packets.PullResp.{PullRespPacket, marshal_pull_resp}
use chirpstack_gateway_bridg.Packets.PullResp.Convert.{get_pull_resp_packet}
use chirpstack_gateway_bridg.Packets.PushData.{PushDataPacket}
use chirpstack_gateway_bridg.SemtechUdp.Registry.{UdpAddr, Gateway, gateway_does_not_exist, get}
use chirpstack_gateway_bridg.SemtechUdp.Backend.{
  UdpPacket, Backend, Output, udp_send, downlink_tx_ack, BackendError, unknown_packet_type, Env,
  Outcome, downlink_id_of, ack_error, gateway_id_of, pull_data_decoded, handle_pull_data,
  tx_ack_decoded, handle_tx_ack, pushed_stats, pushed_frames, then_do, push_data_decoded,
  handle_push_data, dispatch, handle_packet, downlink_token, packet_for, send_result, send_with,
  send_downlink_frame,
}
use chirpstack_gateway_bridg.SemtechUdp.Backend.Answers.{
  handle_packet-dispatch, handle_packet-pull_data,
}

-- A call of the backend, with what stands around it.
pub data Request (w : Platform) : Type 1 where
  receives : Env w → UdpPacket → Request w
  sends_down : Env w → DownlinkFrame w.Duration → Request w

module _ {w : Platform} where
  -- The state after calls in turn.
  abbrev pub serve : Backend → List (Request w) → Backend
  serve b [] = b
  serve b (receives env up ∷ rs) = serve (handle_packet env b up).1 rs
  serve b (sends_down env frame ∷ rs) = serve (send_downlink_frame env b frame).1 rs

  -- The request is a downlink whose token has these 16 bits.
  abbrev pub Uses : ℕ → Request w → Type 0
  Uses t (receives env up) = ⊥
  Uses t (sends_down env frame) = (n : ℕ) × (downlink_token env frame ≡ ok n) × (n % 65536 ≡ t)

  -- Packets leave the tokens, and whether the backend is closed.
  abbrev SameTokens : Backend → Outcome w → Type 0
  SameTokens b o = (o.1.token_map ≡ b.token_map) × (o.1.closed ≡ b.closed)

  then_do-SameTokens :
      (env : Env w) (b : Backend) (os : List (Output w))
      (first second : Result BackendError (List (Output w)))
      → SameTokens b (then_do env b os first second)
  unfolding then_do
  then_do-SameTokens env b os (err e) s = (refl, refl)
  then_do-SameTokens env b os (ok x) (err e) = (refl, refl)
  then_do-SameTokens env b os (ok x) (ok y) = (refl, refl)

  push_data_decoded-SameTokens :
      (env : Env w) (b : Backend) (addr : UdpAddr) (m : Result PacketError (PushDataPacket w))
      → SameTokens b (push_data_decoded env b addr m)
  unfolding push_data_decoded marshal_push_ack
  push_data_decoded-SameTokens env b addr (err e) = (refl, refl)
  push_data_decoded-SameTokens env b addr (ok p) =
      then_do-SameTokens env b
        (udp_send
            (record { addr = addr; payload = header p.protocol_version p.random_token push_ack })
          ∷ [])
        (pushed_stats env b addr p) (pushed_frames env b p)

  pull_data_decoded-SameTokens :
      (env : Env w) (b : Backend) (addr : UdpAddr) (m : Result PacketError PullDataPacket)
      → SameTokens b (pull_data_decoded env b addr m)
  unfolding pull_data_decoded marshal_pull_ack
  pull_data_decoded-SameTokens env b addr (err e) = (refl, refl)
  pull_data_decoded-SameTokens env b addr (ok p) = (refl, refl)

  tx_ack_decoded-SameTokens :
      (env : Env w) (b : Backend) (m : Result PacketError TxAckPacket)
      → SameTokens b (tx_ack_decoded env b m)
  unfolding tx_ack_decoded
  tx_ack_decoded-SameTokens env b (err e) = (refl, refl)
  tx_ack_decoded-SameTokens env b (ok p) = (refl, refl)

  -- A test between outcomes.
  if-SameTokens :
      (b : Backend) (t : Bool) (x y : Outcome w)
      → SameTokens b x
      → SameTokens b y
      → SameTokens b (if t then x else y)
  if-SameTokens b true x y h k = h
  if-SameTokens b false x y h k = k

  dispatch-SameTokens :
      (env : Env w) (b : Backend) (up : UdpPacket) (m : Result PacketError PacketType)
      → SameTokens b (dispatch env b up m)
  unfolding dispatch handle_push_data handle_pull_data handle_tx_ack
  dispatch-SameTokens env b up (err e) = (refl, refl)
  dispatch-SameTokens env b up (ok kind) =
      if-SameTokens b (kind == push_data) (handle_push_data env b up)
        (if kind == pull_data
          then handle_pull_data env b up
          else if kind == tx_ack
          then handle_tx_ack env b up
          else (err (unknown_packet_type kind), b, []))
        (push_data_decoded-SameTokens env b up.addr _)
        (if-SameTokens b (kind == pull_data) (handle_pull_data env b up)
          (if kind == tx_ack
            then handle_tx_ack env b up
            else (err (unknown_packet_type kind), b, []))
          (pull_data_decoded-SameTokens env b up.addr _)
          (if-SameTokens b (kind == tx_ack) (handle_tx_ack env b up)
            (err (unknown_packet_type kind), b, []) (tx_ack_decoded-SameTokens env b _)
            (refl, refl)))

  handle_packet-SameTokens :
      (env : Env w) (b : Backend) (up : UdpPacket) → SameTokens b (handle_packet env b up)
  unfolding handle_packet
  handle_packet-SameTokens env b up =
      if-SameTokens b b.closed (ok tt, b, []) (dispatch env b up (get_packet_type up.payload))
        (refl, refl) (dispatch-SameTokens env b up (get_packet_type up.payload))

  -- The tokens after a downlink.
  send_result-state :
      (env : Env w) (b : Backend) (m : Result BackendError UdpPacket) → (send_result env b m).1 ≡ b
  unfolding send_result
  send_result-state env b (err e) = refl
  send_result-state env b (ok p) = refl

  send_with-stores :
      (env : Env w) (b : Backend) (frame : DownlinkFrame w.Duration) (token t : ℕ)
      → lookup t (send_with env b frame (ok token)).1.token_map
        ≡ (if token % 65536 == t then some frame.downlink_id else lookup t b.token_map)
  unfolding send_with
  send_with-stores env b frame token t =
      ap (λ s. lookup t s.token_map) (send_result-state env _ _)
      ∙ lookup-insert (token % 65536) t frame.downlink_id b.token_map

  send_with-closed :
      (env : Env w) (b : Backend) (frame : DownlinkFrame w.Duration) (m : Result BackendError ℕ)
      → (send_with env b frame m).1.closed ≡ b.closed
  unfolding send_with
  send_with-closed env b frame (err e) = refl
  send_with-closed env b frame (ok token) = ap (λ s. s.closed) (send_result-state env _ _)

  send_with-other :
      (env : Env w) (b : Backend) (frame : DownlinkFrame w.Duration) (m : Result BackendError ℕ)
      (t : ℕ)
      → ((n : ℕ) → m ≡ ok n → n % 65536 ≢ t)
      → lookup t (send_with env b frame m).1.token_map ≡ lookup t b.token_map
  unfolding send_with
  send_with-other env b frame (err e) t h = refl
  send_with-other env b frame (ok token) t h =
      send_with-stores env b frame token t ∙ ground (arith, h token refl)

  serve-token :
      (rs : List (Request w)) (b : Backend) (t : ℕ)
      → All (λ r. ¬ Uses t r) rs
      → (lookup t (serve b rs).token_map ≡ lookup t b.token_map) × ((serve b rs).closed ≡ b.closed)
  serve-token [] b t h = (refl, refl)
  serve-token (receives env up ∷ rs) b t h =
      let (l, c) = serve-token rs (handle_packet env b up).1 t h.1 in
      let (k, d) = handle_packet-SameTokens env b up in (l ∙ ap (lookup t) k, c ∙ d)
  serve-token (sends_down env frame ∷ rs) b t h =
      let (l, c) = serve-token rs (send_downlink_frame env b frame).1 t h.1 in
      (
        l
            ∙ unfold send_downlink_frame in
              send_with-other env b frame (downlink_token env frame) t (λ n e k. h.0 (n, e, k)),
        c ∙ unfold send_downlink_frame in send_with-closed env b frame (downlink_token env frame),
      )

  sent :
      (env : Env w) (b : Backend) (frame : DownlinkFrame w.Duration) (token : ℕ)
      → downlink_token env frame ≡ ok token
      → (lookup (token % 65536) (send_downlink_frame env b frame).1.token_map
          ≡ some frame.downlink_id)
        × ((send_downlink_frame env b frame).1.closed ≡ b.closed)
  unfolding send_downlink_frame
  sent env b frame token e = (
    ap (λ m. lookup (token % 65536) (send_with env b frame m).1.token_map) e
        ∙ send_with-stores env b frame token (token % 65536)
        ∙ ground arith,
    send_with-closed env b frame (downlink_token env frame),
  )

  tx_ack-type :
      (env : Env w) (bs : Bytes) (p : TxAckPacket)
      → unmarshal_tx_ack env.tx_ack_json bs ≡ ok p
      → get_packet_type bs ≡ ok tx_ack
  unfolding unmarshal_tx_ack get_packet_type
  tx_ack-type env bs p e = ground arith

  -- After a downlink with a token, and then any packets and downlinks of which none uses the same 16 bits of a token, a
  -- TX_ACK with these 16 bits is passed on as the acknowledgement of that downlink, with the gateway and the error
  -- of the TX_ACK. The backend is open, and the downlink may itself have failed after its token was stored.
  pub tx_ack-finds-downlink :
      (env env' : Env w) (b : Backend) (frame : DownlinkFrame w.Duration) (token : ℕ)
      (rs : List (Request w)) (up : UdpPacket) (p : TxAckPacket)
      → b.closed ≡ false
      → downlink_token env frame ≡ ok token
      → All (λ r. ¬ Uses (token % 65536) r) rs
      → unmarshal_tx_ack env'.tx_ack_json up.payload ≡ ok p
      → p.random_token ≡ token % 65536
      → (handle_packet env' (serve (send_downlink_frame env b frame).1 rs) up).2
        ≡ downlink_tx_ack (record {
          gateway_id = p.gateway_mac;
          token = token % 65536;
          downlink_id = frame.downlink_id;
          error = ack_error p.payload;
        })
          ∷ []
  unfolding dispatch handle_tx_ack tx_ack_decoded downlink_id_of
  tx_ack-finds-downlink env env' b frame token rs up p open_ e h d k =
      let s = (send_downlink_frame env b frame).1 in
      let (l, c) = serve-token rs s (token % 65536) h in
      let (stored, still) = sent env b frame token e in
      ap (λ o. o.2)
        (handle_packet-dispatch env' (serve s rs) up tx_ack (c ∙ still ∙ open_)
            (tx_ack-type env' up.payload p d)
          ∙ ap (tx_ack_decoded env' (serve s rs)) d)
      ∙ ap
          (λ n.
            downlink_tx_ack (record {
              gateway_id = p.gateway_mac;
              token = n;
              downlink_id = downlink_id_of (serve s rs) n;
              error = ack_error p.payload;
            })
            ∷ [])
          k
      ∙ ap
          (λ o.
            downlink_tx_ack (record {
              gateway_id = p.gateway_mac;
              token = token % 65536;
              downlink_id = elim o [ none ↦ [] | some id ↦ id ];
              error = ack_error p.payload;
            })
            ∷ [])
          (l ∙ stored)

  -- After a PULL_DATA of its gateway, a downlink whose token and packet can be made is sent without an error: the only packet goes to the address of the
  -- PULL_DATA, in the version of the PULL_DATA.
  pub downlink-after_pull_data :
      (env env' : Env w) (b : Backend) (up : UdpPacket) (p : PullDataPacket)
      (frame : DownlinkFrame w.Duration) (token : ℕ) (r : PullRespPacket w.Float) (bytes : Bytes)
      → b.closed ≡ false
      → unmarshal_pull_data up.payload ≡ ok p
      → copy_eui (gateway_id_of frame.tx_info) ≡ p.gateway_mac
      → downlink_token env' frame ≡ ok token
      → get_pull_resp_packet w p.protocol_version (token % 65536) frame ≡ ok r
      → marshal_pull_resp env'.pull_resp_json r ≡ ok bytes
      → ((send_downlink_frame env' (handle_packet env b up).1 frame).0 ≡ ok tt)
        × ((send_downlink_frame env' (handle_packet env b up).1 frame).2
            ≡ udp_send (record { addr = up.addr; payload = bytes }) ∷ [])
  unfolding send_downlink_frame send_with
  downlink-after_pull_data env env' b up p frame token r bytes open_ d mac e conv enc =
      let gws = (handle_packet env b up).1 in
      subst
        (λ m.
          ((send_with env' gws frame m).0 ≡ ok tt)
          × ((send_with env' gws frame m).2
              ≡ udp_send (record { addr = up.addr; payload = bytes }) ∷ []))
        (sym e)
        (subst
          (λ m.
            ((send_result env' (stored gws) m).0 ≡ ok tt)
            × ((send_result env' (stored gws) m).2
                ≡ udp_send (record { addr = up.addr; payload = bytes }) ∷ []))
          (sym made) (unfold send_result in (refl, refl)))
    where
      stored : Backend → Backend
      stored s = record s { token_map = insert (token % 65536) frame.downlink_id s.token_map }

      entry : Gateway
      entry = record {
        addr = up.addr;
        last_seen = env.now_ns;
        protocol_version = p.protocol_version;
      }

      found :
          (if bytes_eq p.gateway_mac p.gateway_mac
            then some entry
            else lookup p.gateway_mac b.gateways)
          ≡ some entry
      found = ground (arith, bytes_eq_iff p.gateway_mac p.gateway_mac)

      registered : get (handle_packet env b up).1.gateways p.gateway_mac ≡ ok entry
      registered =
          unfold get in
          ap (or_fail gateway_does_not_exist)
            ((handle_packet-pull_data env b up p open_ d).3 p.gateway_mac ∙ found)

      made :
          packet_for env' (stored (handle_packet env b up).1) token frame
          ≡ ok (record { addr = up.addr; payload = bytes })
      made = unfold packet_for in rw (mac, registered, conv, enc) refl
