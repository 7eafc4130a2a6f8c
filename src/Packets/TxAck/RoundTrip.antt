-- ===== src/Packets/TxAck/RoundTrip.antt =====
-- tx_ack.go: a TX_ACK is read back, and what is refused.
use chirpstack_gateway_bridg.Prelude.{
  ltb, if◌then◌else◌, Option-cases, length, take, drop, length-append, take-append, drop-append, ok,
  >>=-eq-ok, ok-injective, Bytes, ℕ, ◌≤◌, ◌<◌, ◌≡◌, sym, ap, ◌∙◌, ◌≢◌, ◌↔◌, inl, inr, true, Option,
  none, some, ◌∷◌, ◌++◌, arith,
}
use chirpstack_gateway_bridg.Platform.{Json, ReadsBack}
use chirpstack_gateway_bridg.Packets.{tx_ack, protocol_supported, at, header, token_of}
use chirpstack_gateway_bridg.Packets.Polls.RoundTrip.{IsHeader}
use chirpstack_gateway_bridg.Packets.TxAck.{
  TxAckPayload, TxAckPacket, marshal_payload, marshal_tx_ack, unmarshal_payload, unmarshal_tx_ack,
}

module _ (json : Json TxAckPayload) where
  abbrev pub IsReadable : Option TxAckPayload → Type 0
  IsReadable none = Unit
  IsReadable (some p) = ReadsBack json p

  unmarshal_payload-append :
      (a b c d : ℕ) (mac pb : Bytes) (p : Option TxAckPayload)
      → length mac ≡ 8
      → IsReadable p
      → marshal_payload json p ≡ ok pb
      → unmarshal_payload json (a ∷ b ∷ c ∷ d ∷ (mac ++ pb)) ≡ ok p
  unfolding marshal_payload unmarshal_payload
  unmarshal_payload-append a b c d mac pb none l r e = ground (arith, length-append mac pb)
  unmarshal_payload-append a b c d mac pb (some p) l r e =
      ground (arith, length-append mac pb, drop-append mac pb 8 l, r pb)

  unmarshal_tx_ack_parts :
      (v t : ℕ) (mac pb : Bytes) (pl : Option TxAckPayload)
      → IsHeader v t
      → length mac ≡ 8
      → unmarshal_payload json (header v t tx_ack ++ (mac ++ pb)) ≡ ok pl
      → unmarshal_tx_ack json (header v t tx_ack ++ (mac ++ pb))
        ≡ ok (record { protocol_version = v; random_token = t; gateway_mac = mac; payload = pl })
  unmarshal_tx_ack_parts v t mac pb pl h l e =
      unfold unmarshal_tx_ack in ground (arith, length-append mac pb, take-append mac pb 8 l)

  -- A TX_ACK with a supported version, a 16-bit token, an eight-byte gateway id, and no payload or
  -- one that JSON reads back, is decoded from its encoding.
  pub unmarshal-marshal_tx_ack :
      (p : TxAckPacket) (bs : Bytes)
      → IsHeader p.protocol_version p.random_token
      → length p.gateway_mac ≡ 8
      → IsReadable p.payload
      → marshal_tx_ack json p ≡ ok bs
      → unmarshal_tx_ack json bs ≡ ok p
  unfolding marshal_tx_ack
  unmarshal-marshal_tx_ack p bs h l r e =
      let (pb, m, rest) = >>=-eq-ok (marshal_payload json p.payload) _ e in
      ap (unmarshal_tx_ack json) (sym (ok-injective rest))
      ∙ unmarshal_tx_ack_parts p.protocol_version p.random_token p.gateway_mac pb p.payload h l
          (unmarshal_payload-append _ _ _ _ p.gateway_mac pb p.payload l r m)

  -- Data are accepted as a TX_ACK exactly when they have at least 12 bytes, the type TX_ACK, a
  -- supported version and, if they are longer than 13 bytes, a payload that JSON decodes.
  pub unmarshal_tx_ack_accepts :
      (bs : Bytes)
      → ((p : TxAckPacket) × (unmarshal_tx_ack json bs ≡ ok p)) ↔ (
          (12 ≤ length bs)
          × (at bs 3 ≡ tx_ack)
          × (protocol_supported (at bs 0) ≡ true)
          × (13 < length bs → json.unmarshal (drop 12 bs) ≢ none))
  unfolding unmarshal_tx_ack
  unmarshal_tx_ack_accepts bs = (
    λ a. (accepted a.0 a.1, ground arith, ground arith, λ long e. ground arith),
    λ (len, kind, version, decodes). elim (Option-cases (json.unmarshal (drop 12 bs))) [
      | inl e ↦ (packet none, ground (arith, decodes))
      | inr (pl, e) ↦ (packet (if ltb 13 (length bs) then some pl else none), ground arith)
    ],
  )
    where
      accepted : (p : TxAckPacket) → unmarshal_tx_ack json bs ≡ ok p → 12 ≤ length bs
      accepted p e = ground arith

      packet : Option TxAckPayload → TxAckPacket
      packet pl = record {
        protocol_version = at bs 0;
        random_token = token_of bs;
        gateway_mac = take 8 (drop 4 bs);
        payload = pl;
      }
