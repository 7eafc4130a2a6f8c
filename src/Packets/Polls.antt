-- ===== src/Packets/Polls.antt =====
-- internal/backend/semtechudp/packets/pull_data.go, pull_ack.go and push_ack.go: the packets that
-- have no payload.
pub mod RoundTrip
use chirpstack_gateway_bridg.Prelude.{
  ℕ, if◌then◌else◌, ◌==◌, not, Bytes, ◌++◌, length, take, drop, Result, ok, err,
}
use chirpstack_gateway_bridg.Packets.{
  PacketError, exactly, identifier_mismatch, invalid_protocol_version, protocol_supported,
  pull_data, pull_ack, push_ack, at, header, token_of,
}

pub record PullDataPacket : Type 0 where
  pub protocol_version : ℕ
  pub random_token : ℕ
  pub gateway_mac : Bytes

unfoldable pub marshal_pull_data : PullDataPacket → Result PacketError Bytes
marshal_pull_data p = ok (header p.protocol_version p.random_token pull_data ++ p.gateway_mac)

unfoldable pub unmarshal_pull_data : Bytes → Result PacketError PullDataPacket
unfolding protocol_supported
unmarshal_pull_data bs =
    if not (length bs == 12)
    then err (exactly 12)
    else if not (at bs 3 == pull_data)
    then err (identifier_mismatch pull_data)
    else if not (protocol_supported (at bs 0))
    then err invalid_protocol_version
    else ok (record {
      protocol_version = at bs 0;
      random_token = token_of bs;
      gateway_mac = take 8 (drop 4 bs);
    })

pub record PullAckPacket : Type 0 where
  pub protocol_version : ℕ
  pub random_token : ℕ

unfoldable pub marshal_pull_ack : PullAckPacket → Result PacketError Bytes
marshal_pull_ack p = ok (header p.protocol_version p.random_token pull_ack)

unfoldable pub unmarshal_pull_ack : Bytes → Result PacketError PullAckPacket
unfolding protocol_supported
unmarshal_pull_ack bs =
    if not (length bs == 4)
    then err (exactly 4)
    else if not (at bs 3 == pull_ack)
    then err (identifier_mismatch pull_ack)
    else if not (protocol_supported (at bs 0))
    then err invalid_protocol_version
    else ok (record { protocol_version = at bs 0; random_token = token_of bs })

pub record PushAckPacket : Type 0 where
  pub protocol_version : ℕ
  pub random_token : ℕ

unfoldable pub marshal_push_ack : PushAckPacket → Result PacketError Bytes
marshal_push_ack p = ok (header p.protocol_version p.random_token push_ack)

unfoldable pub unmarshal_push_ack : Bytes → Result PacketError PushAckPacket
unfolding protocol_supported
unmarshal_push_ack bs =
    if not (length bs == 4)
    then err (exactly 4)
    else if not (at bs 3 == push_ack)
    then err (identifier_mismatch push_ack)
    else if not (protocol_supported (at bs 0))
    then err invalid_protocol_version
    else ok (record { protocol_version = at bs 0; random_token = token_of bs })
