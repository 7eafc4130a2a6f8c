-- ===== src/Packets/PullResp/RoundTrip.antt =====
-- pull_resp.go: a PULL_RESP is read back, less the token in version 1.
use chirpstack_gateway_bridg.Prelude.{
  ◌==◌, if◌then◌else◌, Bool-cases, length, ok, >>=-eq-ok, ok-injective, Bytes, ℕ, ◌≤◌, ◌≡◌, sym, ap,
  ◌∙◌, inl, inr, some, ◌++◌, arith,
}
use chirpstack_gateway_bridg.Platform.{Json, ReadsBack}
use chirpstack_gateway_bridg.Packets.{pull_resp, header, json_result, json_result-eq-ok}
use chirpstack_gateway_bridg.Packets.Polls.RoundTrip.{IsHeader}
use chirpstack_gateway_bridg.Packets.PullResp.{
  PullRespPayload, PullRespPacket, marshal_pull_resp, unmarshal_pull_resp,
}

module _ {F : Type 0} (json : Json (PullRespPayload F)) where
  unmarshal_pull_resp_parts :
      (v t : ℕ) (pb : Bytes) (pl : PullRespPayload F)
      → IsHeader v t
      → 2 ≤ length pb
      → json.unmarshal pb ≡ some pl
      → unmarshal_pull_resp json (header v t pull_resp ++ pb)
        ≡ ok (record { protocol_version = v; random_token = t; payload = pl })
  unfolding unmarshal_pull_resp
  unmarshal_pull_resp_parts v t pb pl h l e = ground arith

  -- A PULL_RESP with a supported version, a 16-bit token and a payload that JSON reads back is decoded
  -- from its encoding, with the token 0 in version 1 and with its own token in version 2.
  pub unmarshal-marshal_pull_resp :
      (p : PullRespPacket F) (bs : Bytes)
      → IsHeader p.protocol_version p.random_token
      → ReadsBack json p.payload
      → marshal_pull_resp json p ≡ ok bs
      → unmarshal_pull_resp json bs
        ≡ ok (record p { random_token = if p.protocol_version == 1 then 0 else p.random_token })
  unfolding marshal_pull_resp
  unmarshal-marshal_pull_resp p bs h r e =
      let (pb, m, rest) = >>=-eq-ok (json_result (json.marshal p.payload)) _ e in
      let read = r pb (json_result-eq-ok (json.marshal p.payload) m) in
      ap (unmarshal_pull_resp json) (sym (ok-injective rest))
      ∙ elim (Bool-cases (p.protocol_version == 1)) [
        | inl one ↦ rw one (
            unmarshal_pull_resp_parts p.protocol_version 0 pb p.payload (h.0, omega arith) read.0
              read.1)
        | inr two ↦ rw two (
            unmarshal_pull_resp_parts p.protocol_version p.random_token pb p.payload h read.0
              read.1)
      ]
