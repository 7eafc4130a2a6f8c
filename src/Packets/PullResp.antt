-- ===== src/Packets/PullResp.antt =====
-- internal/backend/semtechudp/packets/pull_resp.go.
pub mod Convert
pub mod RoundTrip
use chirpstack_gateway_bridg.Prelude.{
  ltb, ◌==◌, if◌then◌else◌, length, drop, Result, ok, err, ◌>>=◌, Bytes, ℕ, ◌+◌, Bool, not, Option,
  ◌++◌,
}
use chirpstack_gateway_bridg.Prelude.Int.{ℤ}
use chirpstack_gateway_bridg.Platform.{Json}
use chirpstack_gateway_bridg.Packets.{
  pull_resp, protocol_version1, PacketError, at_least, identifier_mismatch,
  invalid_protocol_version, protocol_supported, at, header, token_of, json_result,
}
use chirpstack_gateway_bridg.Packets.DataRate.{DatR}

pub record Txpk (F : Type 0) : Type 0 where
  pub imme : Bool
  pub rfch : ℕ
  pub powe : ℕ
  pub ant : ℕ
  pub brd : ℕ
  pub tmst : Option ℕ
  pub tmms : Option ℤ
  pub freq : F
  pub modu : Bytes
  pub dat_r : DatR
  pub cod_r : Bytes
  pub fdev : ℕ
  pub ncrc : Bool
  pub ipol : Bool
  pub prea : ℕ
  pub size : ℕ
  pub payload : Bytes

pub record PullRespPayload (F : Type 0) : Type 0 where
  pub txpk : Txpk F

pub record PullRespPacket (F : Type 0) : Type 0 where
  pub protocol_version : ℕ
  pub random_token : ℕ
  pub payload : PullRespPayload F

module _ {F : Type 0} (json : Json (PullRespPayload F)) where
  -- The two bytes of the token stay zero in version 1.
  unfoldable pub marshal_pull_resp : PullRespPacket F → Result PacketError Bytes
  marshal_pull_resp p = do
    pb ← json_result (json.marshal p.payload)
    let token = if not (p.protocol_version == protocol_version1) then p.random_token else 0
    ok (header p.protocol_version token pull_resp ++ pb)

  unfoldable pub unmarshal_pull_resp : Bytes → Result PacketError (PullRespPacket F)
  unfolding protocol_supported
  unmarshal_pull_resp bs =
      if ltb (length bs) 5
      then err (at_least 5)
      else if not (at bs 3 == pull_resp)
      then err (identifier_mismatch pull_resp)
      else if not (protocol_supported (at bs 0))
      then err invalid_protocol_version
      else json_result (json.unmarshal (drop 4 bs)) >>= λ p.
          ok (record { protocol_version = at bs 0; random_token = token_of bs; payload = p })
