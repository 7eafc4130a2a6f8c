-- ===== src/Packets/PushData.antt =====
-- internal/backend/semtechudp/packets/push_data.go: the packet and its payload. The children model what
-- is made of it.
pub mod Stats
pub mod Frames
pub mod RoundTrip
use chirpstack_gateway_bridg.Prelude.{
  ltb, ◌==◌, if◌then◌else◌, length, take, drop, Result, ok, err, ◌>>=◌, Bytes, ℕ, ◌+◌, not, Option,
  List, ◌++◌,
}
use chirpstack_gateway_bridg.Prelude.Int.{ℤ}
use chirpstack_gateway_bridg.Platform.{Json, Platform}
use chirpstack_gateway_bridg.Packets.{
  push_data, PacketError, at_least, identifier_mismatch, invalid_protocol_version,
  protocol_supported, at, header, token_of, json_result,
}
use chirpstack_gateway_bridg.Packets.DataRate.{DatR}

-- `Stat`; `time` is an `ExpandedTime`.
pub record Stat (w : Platform) : Type 0 where
  pub time : w.Time
  pub lati : w.Float
  pub long : w.Float
  pub alti : ℤ
  pub rxnb : ℕ
  pub rxok : ℕ
  pub rxfw : ℕ
  pub ackr : w.Float
  pub dwnb : ℕ
  pub txnb : ℕ

pub record RSig (w : Platform) : Type 0 where
  pub ant : ℕ
  pub channel : ℕ
  pub rssic : ℤ
  pub lsnr : w.Float
  pub etime : Bytes

-- `RXPK`; `time` is a `*CompactTime` and `payload` is the field `Data`.
pub record Rxpk (w : Platform) : Type 0 where
  pub time : Option w.Time
  pub tmms : Option ℤ
  pub tmst : ℕ
  pub aesk : ℕ
  pub channel : ℕ
  pub rfch : ℕ
  pub stat : ℤ
  pub freq : w.Float
  pub brd : ℕ
  pub rssi : ℤ
  pub size : ℕ
  pub dat_r : DatR
  pub modu : Bytes
  pub cod_r : Bytes
  pub lsnr : w.Float
  pub payload : Bytes
  pub rsig : List (RSig w)

pub record PushDataPayload (w : Platform) : Type 0 where
  pub rxpk : List (Rxpk w)
  pub stat : Option (Stat w)

pub record PushDataPacket (w : Platform) : Type 0 where
  pub protocol_version : ℕ
  pub random_token : ℕ
  pub gateway_mac : Bytes
  pub payload : PushDataPayload w

module _ {w : Platform} (json : Json (PushDataPayload w)) where
  unfoldable pub marshal_push_data : PushDataPacket w → Result PacketError Bytes
  marshal_push_data p = do
    pb ← json_result (json.marshal p.payload)
    ok (header p.protocol_version p.random_token push_data ++ (p.gateway_mac ++ pb))

  unfoldable pub unmarshal_push_data : Bytes → Result PacketError (PushDataPacket w)
  unfolding protocol_supported
  unmarshal_push_data bs =
      if ltb (length bs) 13
      then err (at_least 13)
      else if not (at bs 3 == push_data)
      then err (identifier_mismatch push_data)
      else if not (protocol_supported (at bs 0))
      then err invalid_protocol_version
      else json_result (json.unmarshal (drop 12 bs)) >>= λ p. ok (record {
        protocol_version = at bs 0;
        random_token = token_of bs;
        gateway_mac = take 8 (drop 4 bs);
        payload = p;
      })
