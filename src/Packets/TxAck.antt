-- ===== src/Packets/TxAck.antt =====
-- internal/backend/semtechudp/packets/tx_ack.go.
pub mod RoundTrip
use chirpstack_gateway_bridg.Prelude.{
  ltb, ◌==◌, if◌then◌else◌, length, take, drop, Result, ok, err, ◌>>=◌, Bytes, ℕ, ◌+◌, not, Option,
  none, some, [], ◌++◌,
}
use chirpstack_gateway_bridg.Platform.{Json}
use chirpstack_gateway_bridg.Packets.{
  tx_ack, PacketError, at_least, identifier_mismatch, invalid_protocol_version, protocol_supported,
  at, header, token_of, json_result,
}

pub record TxpkAck : Type 0 where
  pub error : Bytes

pub record TxAckPayload : Type 0 where
  pub txpk_ack : TxpkAck

pub record TxAckPacket : Type 0 where
  pub protocol_version : ℕ
  pub random_token : ℕ
  pub gateway_mac : Bytes
  pub payload : Option TxAckPayload

module _ (json : Json TxAckPayload) where
  -- The text of the payload, which is empty where there is none.
  marshal_payload : Option TxAckPayload → Result PacketError Bytes
  marshal_payload none = ok []
  marshal_payload (some p) = json_result (json.marshal p)

  unfoldable pub marshal_tx_ack : TxAckPacket → Result PacketError Bytes
  unfolding marshal_payload
  marshal_tx_ack p = do
    pb ← marshal_payload p.payload
    ok (header p.protocol_version p.random_token tx_ack ++ (p.gateway_mac ++ pb))

  -- Bytes 12 and on: at least the two of `{}` are a payload.
  unmarshal_payload : Bytes → Result PacketError (Option TxAckPayload)
  unmarshal_payload bs =
      if ltb 13 (length bs)
      then json_result (json.unmarshal (drop 12 bs)) >>= (λ p. ok (some p))
      else ok none

  unfoldable pub unmarshal_tx_ack : Bytes → Result PacketError TxAckPacket
  unfolding protocol_supported unmarshal_payload
  unmarshal_tx_ack bs =
      if ltb (length bs) 12
      then err (at_least 12)
      else if not (at bs 3 == tx_ack)
      then err (identifier_mismatch tx_ack)
      else if not (protocol_supported (at bs 0))
      then err invalid_protocol_version
      else unmarshal_payload bs >>= λ p. ok (record {
        protocol_version = at bs 0;
        random_token = token_of bs;
        gateway_mac = take 8 (drop 4 bs);
        payload = p;
      })
