-- ===== src/Packets/Polls/RoundTrip.antt =====
-- pull_data.go, pull_ack.go and push_ack.go: decoding inverts encoding, and accepts nothing else.
use chirpstack_gateway_bridg.Prelude.{
  length, take_all, ok, Bytes, AreBytes, ℕ, ◌<◌, ◌≡◌, ◌↔◌, true, [], ◌∷◌, arith,
}
use chirpstack_gateway_bridg.Packets.{protocol_supported}
use chirpstack_gateway_bridg.Packets.Polls.{
  PullDataPacket, marshal_pull_data, unmarshal_pull_data, PullAckPacket, marshal_pull_ack,
  unmarshal_pull_ack, PushAckPacket, marshal_push_ack, unmarshal_push_ack,
}

-- What the header fields of a packet hold: a known version, and a `uint16`.
abbrev pub IsHeader : ℕ → ℕ → Type 0
IsHeader version token = (protocol_supported version ≡ true) × (token < 65536)

marshal-unmarshal_pull_data :
    (bs : Bytes) (p : PullDataPacket)
    → AreBytes bs
    → unmarshal_pull_data bs ≡ ok p
    → IsHeader p.protocol_version p.random_token
      × (length p.gateway_mac ≡ 8)
      × (marshal_pull_data p ≡ ok bs)
unfolding unmarshal_pull_data marshal_pull_data
marshal-unmarshal_pull_data (v ∷ a ∷ b ∷ k ∷ mac) p h e = ground (arith, take_all mac 8)
marshal-unmarshal_pull_data _ p h e = ground arith

unmarshal-marshal_pull_data :
    (bs : Bytes) (p : PullDataPacket)
    → IsHeader p.protocol_version p.random_token
    → length p.gateway_mac ≡ 8
    → marshal_pull_data p ≡ ok bs
    → unmarshal_pull_data bs ≡ ok p
unfolding unmarshal_pull_data marshal_pull_data
unmarshal-marshal_pull_data bs p h l e = ground (arith, take_all p.gateway_mac 8)

-- A datagram decodes to a PULL_DATA packet exactly when it is the encoding of that packet, and the
-- packet has a supported version, a 16-bit token and an eight-byte gateway id.
pub unmarshal_pull_data_iff :
    (bs : Bytes) (p : PullDataPacket)
    → AreBytes bs
    → (unmarshal_pull_data bs ≡ ok p) ↔ (
        IsHeader p.protocol_version p.random_token
        × (length p.gateway_mac ≡ 8)
        × (marshal_pull_data p ≡ ok bs))
unmarshal_pull_data_iff bs p h =
    (marshal-unmarshal_pull_data bs p h, λ w. unmarshal-marshal_pull_data bs p w.0 w.1 w.2)

-- A datagram decodes to a PULL_ACK packet exactly when it is the encoding of that packet, and the
-- packet has a supported version and a 16-bit token.
pub unmarshal_pull_ack_iff :
    (bs : Bytes) (p : PullAckPacket)
    → AreBytes bs
    → (unmarshal_pull_ack bs ≡ ok p)
      ↔ (IsHeader p.protocol_version p.random_token × (marshal_pull_ack p ≡ ok bs))
unfolding unmarshal_pull_ack marshal_pull_ack
unmarshal_pull_ack_iff (v ∷ a ∷ b ∷ k ∷ []) p h = (λ e. ground arith, λ e. ground arith)
unmarshal_pull_ack_iff _ p h = (λ e. ground arith, λ e. ground arith)

-- A datagram decodes to a PUSH_ACK packet exactly when it is the encoding of that packet, and the
-- packet has a supported version and a 16-bit token.
pub unmarshal_push_ack_iff :
    (bs : Bytes) (p : PushAckPacket)
    → AreBytes bs
    → (unmarshal_push_ack bs ≡ ok p)
      ↔ (IsHeader p.protocol_version p.random_token × (marshal_push_ack p ≡ ok bs))
unfolding unmarshal_push_ack marshal_push_ack
unmarshal_push_ack_iff (v ∷ a ∷ b ∷ k ∷ []) p h = (λ e. ground arith, λ e. ground arith)
unmarshal_push_ack_iff _ p h = (λ e. ground arith, λ e. ground arith)
