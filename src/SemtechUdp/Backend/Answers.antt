-- ===== src/SemtechUdp/Backend/Answers.antt =====
-- internal/backend/semtechudp/backend.go: what a gateway gets back, and what is passed on.
use mathlib.Core.Path.{subst}
use chirpstack_gateway_bridg.Prelude.{
  if◌then◌else◌, Bool-cases, Result, ok, err, ok-injective, Bytes, bytes_eq, nat_key, bytes_key,
  lookup, lookup-insert, ◌≡◌, refl, sym, ap, ◌∙◌, inl, inr, Bool, false, Option, none, some, List,
  [], ◌∷◌, ◌++◌, arith,
}
use chirpstack_gateway_bridg.Platform.{Platform, UplinkFrame, GatewayStats}
use chirpstack_gateway_bridg.Filters.{match_filters}
use chirpstack_gateway_bridg.Packets.{
  PacketType, push_data, push_ack, pull_data, pull_ack, get_packet_type, header,
}
use chirpstack_gateway_bridg.Packets.Polls.{
  PullDataPacket, unmarshal_pull_data, marshal_pull_ack, marshal_push_ack,
}
use chirpstack_gateway_bridg.Packets.PushData.{PushDataPacket, unmarshal_push_data}
use chirpstack_gateway_bridg.Packets.PushData.Frames.{FrameError, get_uplink_frames}
use chirpstack_gateway_bridg.Packets.PushData.Stats.{StatsError}
use chirpstack_gateway_bridg.SemtechUdp.Registry.{UdpAddr, set}
use chirpstack_gateway_bridg.SemtechUdp.Backend.{
  UdpPacket, Backend, Output, udp_send, downlink_tx_ack, gateway_stats, uplink_frame,
  subscribe_event, BackendError, Env, pull_data_decoded, handle_pull_data, handle_stats,
  handle_uplink_frames, stats_outputs, pushed_stats, frame_outputs, pushed_frames, then_do,
  push_data_decoded, handle_push_data, dispatch, handle_packet,
}

module _ {w : Platform} where
  -- What goes to the channel of packets to send, and to the channel of uplinks.
  abbrev pub sends : List (Output w) → List UdpPacket
  sends [] = []
  sends (udp_send p ∷ os) = p ∷ sends os
  sends (o ∷ os) = sends os

  abbrev pub uplinks : List (Output w) → List (UplinkFrame w)
  uplinks [] = []
  uplinks (uplink_frame f ∷ os) = f ∷ uplinks os
  uplinks (o ∷ os) = uplinks os

  sends-append : (os ps : List (Output w)) → sends (os ++ ps) ≡ sends os ++ sends ps
  sends-append [] ps = refl
  sends-append (udp_send p ∷ os) ps = ap (λ x. p ∷ x) (sends-append os ps)
  sends-append (downlink_tx_ack p ∷ os) ps = sends-append os ps
  sends-append (gateway_stats p ∷ os) ps = sends-append os ps
  sends-append (uplink_frame p ∷ os) ps = sends-append os ps
  sends-append (subscribe_event p ∷ os) ps = sends-append os ps

  uplinks-append : (os ps : List (Output w)) → uplinks (os ++ ps) ≡ uplinks os ++ uplinks ps
  uplinks-append [] ps = refl
  uplinks-append (uplink_frame p ∷ os) ps = ap (λ x. p ∷ x) (uplinks-append os ps)
  uplinks-append (downlink_tx_ack p ∷ os) ps = uplinks-append os ps
  uplinks-append (gateway_stats p ∷ os) ps = uplinks-append os ps
  uplinks-append (udp_send p ∷ os) ps = uplinks-append os ps
  uplinks-append (subscribe_event p ∷ os) ps = uplinks-append os ps

  -- The frames that pass the filters, in their order.
  abbrev pub passing : (UplinkFrame w → Bool) → List (UplinkFrame w) → List (UplinkFrame w)
  passing test [] = []
  passing test (f ∷ fs) = if test f then f ∷ passing test fs else passing test fs

module _ {w : Platform} (env : Env w) where
  sends-handle_uplink_frames :
      (fs : List (UplinkFrame w)) → sends (handle_uplink_frames env fs) ≡ []
  unfolding handle_uplink_frames
  sends-handle_uplink_frames [] = refl
  sends-handle_uplink_frames (f ∷ fs) =
      elim (Bool-cases (match_filters env.lorawan env.filters f.phy_payload)) [
        | inl e ↦ rw e (sends-handle_uplink_frames fs)
        | inr e ↦ rw e (sends-handle_uplink_frames fs)
      ]

  uplinks-handle_uplink_frames :
      (fs : List (UplinkFrame w))
      → uplinks (handle_uplink_frames env fs)
        ≡ passing (λ f. match_filters env.lorawan env.filters f.phy_payload) fs
  unfolding handle_uplink_frames
  uplinks-handle_uplink_frames [] = refl
  uplinks-handle_uplink_frames (f ∷ fs) =
      elim (Bool-cases (match_filters env.lorawan env.filters f.phy_payload)) [
        | inl e ↦ rw e (ap (λ x. f ∷ x) (uplinks-handle_uplink_frames fs))
        | inr e ↦ rw e (uplinks-handle_uplink_frames fs)
      ]

  sends-frame_outputs :
      (m : Result FrameError (List (UplinkFrame w))) (os : List (Output w))
      → frame_outputs env m ≡ ok os
      → sends os ≡ []
  unfolding frame_outputs
  sends-frame_outputs (err x) os e = cc
  sends-frame_outputs (ok fs) os e = ap sends (sym (ok-injective e)) ∙ sends-handle_uplink_frames fs

  silent-stats_outputs :
      (b : Backend) (addr : UdpAddr) (mac : Bytes) (m : Result StatsError (Option (GatewayStats w)))
      (os : List (Output w))
      → stats_outputs env b addr mac m ≡ ok os
      → (sends os ≡ []) × (uplinks os ≡ [])
  unfolding stats_outputs handle_stats
  silent-stats_outputs b addr mac (err x) os e = cc
  silent-stats_outputs b addr mac (ok none) os e =
      (ap sends (sym (ok-injective e)), ap uplinks (sym (ok-injective e)))
  silent-stats_outputs b addr mac (ok (some s)) os e =
      (ap sends (sym (ok-injective e)), ap uplinks (sym (ok-injective e)))

  sends-then_do :
      (b : Backend) (p : UdpPacket) (first second : Result BackendError (List (Output w)))
      → ((os : List (Output w)) → first ≡ ok os → sends os ≡ [])
      → ((os : List (Output w)) → second ≡ ok os → sends os ≡ [])
      → (sends (then_do env b (udp_send p ∷ []) first second).2 ≡ p ∷ [])
        × ((then_do env b (udp_send p ∷ []) first second).1 ≡ b)
  unfolding then_do
  sends-then_do b p (err e) next f g = (refl, refl)
  sends-then_do b p (ok os) (err e) f g = (ap (λ x. p ∷ x) (f os refl), refl)
  sends-then_do b p (ok os) (ok ps) f g =
      (ap (λ x. p ∷ x) (sends-append os ps ∙ rw (f os refl) (g ps refl)), refl)

  handle_push_data-acks :
      (b : Backend) (up : UdpPacket) (p : PushDataPacket w)
      → unmarshal_push_data env.push_data_json up.payload ≡ ok p
      → (sends (handle_push_data env b up).2
          ≡ record { addr = up.addr; payload = header p.protocol_version p.random_token push_ack }
            ∷ [])
        × ((handle_push_data env b up).1 ≡ b)
  unfolding handle_push_data marshal_push_ack
  handle_push_data-acks b up p e = rw e (
      sends-then_do b _ (pushed_stats env b up.addr p) (pushed_frames env b p)
        (λ os h. (silent-stats_outputs b up.addr p.gateway_mac _ os h).0) (sends-frame_outputs _))

  push_data-type :
      (bs : Bytes) (p : PushDataPacket w)
      → unmarshal_push_data env.push_data_json bs ≡ ok p
      → get_packet_type bs ≡ ok push_data
  unfolding unmarshal_push_data get_packet_type
  push_data-type bs p e = ground arith

  pub handle_packet-dispatch :
      (b : Backend) (up : UdpPacket) (kind : PacketType)
      → b.closed ≡ false
      → get_packet_type up.payload ≡ ok kind
      → handle_packet env b up ≡ dispatch env b up (ok kind)
  unfolding handle_packet
  handle_packet-dispatch b up kind open_ e =
      ap (λ c. if c then (ok tt, b, []) else dispatch env b up (get_packet_type up.payload)) open_
      ∙ ap (dispatch env b up) e

  -- While the backend is open, a PUSH_DATA that decodes is answered, whatever becomes of its stats and
  -- uplinks: the only packet sent is the PUSH_ACK with its version and token, to its sender, and the state stays as it was.
  pub handle_packet-push_data :
      (b : Backend) (up : UdpPacket) (p : PushDataPacket w)
      → b.closed ≡ false
      → unmarshal_push_data env.push_data_json up.payload ≡ ok p
      → (sends (handle_packet env b up).2
          ≡ record { addr = up.addr; payload = header p.protocol_version p.random_token push_ack }
            ∷ [])
        × ((handle_packet env b up).1 ≡ b)
  unfolding dispatch
  handle_packet-push_data b up p open_ e =
      subst
        (λ o.
          (sends o.2
            ≡ record { addr = up.addr; payload = header p.protocol_version p.random_token push_ack }
              ∷ [])
          × (o.1 ≡ b))
        (sym (handle_packet-dispatch b up push_data open_ (push_data-type up.payload p e)))
        (handle_push_data-acks b up p e)

  -- The uplinks of a PUSH_DATA whose stats and frames are in order are passed on if and only if they pass the filters, in the order of
  -- the packet.
  pub handle_packet-uplinks :
      (b : Backend) (up : UdpPacket) (p : PushDataPacket w) (frames : List (UplinkFrame w))
      (os : List (Output w))
      → b.closed ≡ false
      → unmarshal_push_data env.push_data_json up.payload ≡ ok p
      → pushed_stats env b up.addr p ≡ ok os
      → get_uplink_frames w env.uuid p b.skip_crc_check b.fake_rx_time env.now ≡ ok frames
      → ((handle_packet env b up).0 ≡ ok tt)
        × (uplinks (handle_packet env b up).2
            ≡ passing (λ f. match_filters env.lorawan env.filters f.phy_payload) frames)
  unfolding dispatch handle_push_data push_data_decoded marshal_push_ack then_do pushed_frames
      frame_outputs
  handle_packet-uplinks b up p frames os open_ e s f =
      subst
        (λ o.
          (o.0 ≡ ok tt)
          × (uplinks o.2
              ≡ passing (λ f. match_filters env.lorawan env.filters f.phy_payload) frames))
        (sym (
          handle_packet-dispatch b up push_data open_ (push_data-type up.payload p e)
          ∙ ap (push_data_decoded env b up.addr) e
          ∙ ap
              (λ m.
                then_do env b
                  (udp_send (record {
                    addr = up.addr;
                    payload = header p.protocol_version p.random_token push_ack;
                  })
                    ∷ [])
                  m (pushed_frames env b p))
              s
          ∙ ap
              (λ m.
                then_do env b
                  (udp_send (record {
                    addr = up.addr;
                    payload = header p.protocol_version p.random_token push_ack;
                  })
                    ∷ [])
                  (ok os) (frame_outputs env m))
              f))
        (
          refl,
          uplinks-append os (handle_uplink_frames env frames)
              ∙ ap (λ x. x ++ uplinks (handle_uplink_frames env frames))
                  (silent-stats_outputs b up.addr p.gateway_mac _ os s).1
              ∙ uplinks-handle_uplink_frames frames,
        )

  pull_data-type :
      (bs : Bytes) (p : PullDataPacket)
      → unmarshal_pull_data bs ≡ ok p
      → get_packet_type bs ≡ ok pull_data
  unfolding unmarshal_pull_data get_packet_type
  pull_data-type bs p e = ground arith

  -- While the backend is open, a PULL_DATA that decodes is handled without an error: the gateway is registered with the address of the
  -- sender, the version of the packet and the time, other gateways stay as they were, the tokens too, and the only packet sent is the PULL_ACK
  -- with its version and token, to its sender.
  pub handle_packet-pull_data :
      (b : Backend) (up : UdpPacket) (p : PullDataPacket)
      → b.closed ≡ false
      → unmarshal_pull_data up.payload ≡ ok p
      → ((handle_packet env b up).0 ≡ ok tt)
        × (sends (handle_packet env b up).2
            ≡ record { addr = up.addr; payload = header p.protocol_version p.random_token pull_ack }
              ∷ [])
        × ((handle_packet env b up).1.token_map ≡ b.token_map)
        × ((a : Bytes)
            → lookup a (handle_packet env b up).1.gateways ≡ (
                if bytes_eq p.gateway_mac a
                then some (record {
                  addr = up.addr;
                  last_seen = env.now_ns;
                  protocol_version = p.protocol_version;
                })
                else lookup a b.gateways))
  unfolding dispatch handle_pull_data pull_data_decoded marshal_pull_ack set
  handle_packet-pull_data b up p open_ e =
      subst
        (λ o.
          (o.0 ≡ ok tt)
          × (sends o.2
              ≡ record {
                addr = up.addr;
                payload = header p.protocol_version p.random_token pull_ack;
              }
                ∷ [])
          × (o.1.token_map ≡ b.token_map)
          × ((a : Bytes)
              → lookup a o.1.gateways ≡ (
                  if bytes_eq p.gateway_mac a
                  then some (record {
                    addr = up.addr;
                    last_seen = env.now_ns;
                    protocol_version = p.protocol_version;
                  })
                  else lookup a b.gateways)))
        (sym (
          handle_packet-dispatch b up pull_data open_ (pull_data-type up.payload p e)
          ∙ ap (pull_data_decoded env b up.addr) e))
        (refl, refl, refl, λ a. lookup-insert p.gateway_mac a _ b.gateways)
