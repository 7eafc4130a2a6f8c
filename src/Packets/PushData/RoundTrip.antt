-- ===== src/Packets/PushData/RoundTrip.antt =====
-- push_data.go: a PUSH_DATA is read back.
use chirpstack_gateway_bridg.Prelude.{
  length, length-append, take-append, drop-append, ok, >>=-eq-ok, ok-injective, Bytes, ℕ, ◌≤◌, ◌≡◌,
  sym, ap, ◌∙◌, some, ◌++◌, arith,
}
use chirpstack_gateway_bridg.Platform.{Json, ReadsBack, Platform}
use chirpstack_gateway_bridg.Packets.{push_data, header, json_result, json_result-eq-ok}
use chirpstack_gateway_bridg.Packets.Polls.RoundTrip.{IsHeader}
use chirpstack_gateway_bridg.Packets.PushData.{
  PushDataPayload, PushDataPacket, marshal_push_data, unmarshal_push_data,
}

module _ {w : Platform} (json : Json (PushDataPayload w)) where
  unmarshal_push_data_parts :
      (v t : ℕ) (mac pb : Bytes) (pl : PushDataPayload w)
      → IsHeader v t
      → length mac ≡ 8
      → 2 ≤ length pb
      → json.unmarshal pb ≡ some pl
      → unmarshal_push_data json (header v t push_data ++ (mac ++ pb))
        ≡ ok (record { protocol_version = v; random_token = t; gateway_mac = mac; payload = pl })
  unfolding unmarshal_push_data
  unmarshal_push_data_parts v t mac pb pl h l k e =
      ground (arith, length-append mac pb, take-append mac pb 8 l, drop-append mac pb 8 l)

  -- A PUSH_DATA with a supported version, a 16-bit token, an eight-byte gateway id and a payload that
  -- JSON reads back is decoded from its encoding.
  pub unmarshal-marshal_push_data :
      (p : PushDataPacket w) (bs : Bytes)
      → IsHeader p.protocol_version p.random_token
      → length p.gateway_mac ≡ 8
      → ReadsBack json p.payload
      → marshal_push_data json p ≡ ok bs
      → unmarshal_push_data json bs ≡ ok p
  unfolding marshal_push_data
  unmarshal-marshal_push_data p bs h l r e =
      let (pb, m, rest) = >>=-eq-ok (json_result (json.marshal p.payload)) _ e in
      let read = r pb (json_result-eq-ok (json.marshal p.payload) m) in
      ap (unmarshal_push_data json) (sym (ok-injective rest))
      ∙ unmarshal_push_data_parts p.protocol_version p.random_token p.gateway_mac pb p.payload h l
          read.0 read.1
