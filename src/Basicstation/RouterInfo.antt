-- ===== src/Basicstation/RouterInfo.antt =====
-- `handleRouterInfo` of internal/backend/basicstation/backend.go: where a station is to connect.
pub mod Accepted
use chirpstack_gateway_bridg.Prelude.{
  ltb, leb, ◌==◌, if◌then◌else◌, ltb→lt, lt→ltb, leb→le, ==_iff, Bool-cases, Option-cases, is_some,
  then-eq, else-eq, length, get_or, take, drop, length-append, take-append, drop-append, take_all,
  length-take, take-append-drop, All, All-append, set_at, set_from, fill, set_from-fill, Pointwise,
  Result, ok, err, ◌>>=◌, map_err, >>=-eq-ok, ok-injective, or_fail, or_fail-eq-ok, Result-cases,
  guard-eq-ok, Bytes, AreBytes, codes, bytes_eq, bytes_eq_iff, put_u16_le, put_u32_be, from_be,
  u_be, Key, nat_key, bytes_key, beq_refl, lookup, insert, delete, lookup-insert, lookup-delete, ℕ,
  zero, suc, ◌+◌, ◌-◌, ◌*◌, ◌/◌, ◌%◌, ◌^◌, ◌≤◌, ◌<◌, ◌≡◌, refl, sym, ap, ◌∙◌, ◌≢◌, ◌↔◌, ◌⊎◌, inl,
  inr, Bool, true, false, not, ◌&&◌, ◌||◌, Option, none, some, List, [], ◌∷◌, ◌++◌, map, arith,
}
use chirpstack_gateway_bridg.Platform.{
  Modulation, lora, fsk, other_modulation, Platform, Json, ReadsBack, LoraModulationInfo,
  FskModulationInfo, ModulationInfo, no_modulation_info, lora_modulation_info, fsk_modulation_info,
  get_lora_info, get_fsk_info, Timing, immediately, delay, gps_epoch, other_timing, TimingInfo,
  no_timing_info, delay_timing_info, gps_epoch_timing_info, DownlinkTxInfo, DownlinkFrame,
  CrcStatus, no_crc, bad_crc, crc_ok, UplinkTxInfo, FineTimestamp, UplinkRxInfo, UplinkFrame,
  Location, GatewayStats, DownlinkTxAck,
}
use chirpstack_gateway_bridg.Basicstation.Sessions.{
  Request, RequestError, no_gateway_id_in_url, bad_gateway_id, common_name_mismatch, split_first,
  split_slash, last_part, verified, requested_gateway, Session, opened, checked, registered, World,
  open_session, advance, leave, Step, opens, advances, leaves, Reach, start, next,
}

-- `RouterInfoResponse` of structs/router_info.go
pub record RouterInfoResponse : Type 0 where
  pub router : Bytes
  pub muxs : Bytes
  pub uri : Bytes
  pub response_error : Bytes

-- The scheme and the host of the request, `lorawan.EUI64.UnmarshalText` and `String`, the codec, and the websocket.
pub record RouterInfoEnv : Type 0 where
  pub scheme : Bytes
  pub host : Bytes
  pub unmarshal_eui : Bytes → Option Bytes
  pub eui_string : Bytes → Bytes
  pub response_json : Json RouterInfoResponse
  pub write_message_ok : Bytes → Bool

pub data RouterInfoError : Type 0 where
  read_json_error marshal_response_error write_response_error : RouterInfoError

module _ (env : RouterInfoEnv) where
  abbrev pub gateway_path : Bytes → Bytes
  gateway_path id = codes "/gateway/" ++ env.eui_string id

  -- The answer before the certificate is checked.
  first_answer : Bytes → RouterInfoResponse
  first_answer id = record {
    router = id;
    muxs = id;
    uri = env.scheme ++ (codes "://" ++ (env.host ++ gateway_path id));
    response_error = [];
  }

  mismatch_answer : Bytes → Bytes → RouterInfoResponse
  unfolding first_answer
  mismatch_answer id name = record (first_answer id) {
    uri = [];
    response_error =
        codes "certificate CommonName "
        ++ (name ++ (codes " does not match router " ++ env.eui_string id));
  }

  -- `err != nil || cn != lorawan.EUI64(req.Router)`, of the identifier that the common name is read as.
  is_mismatch : Bytes → Option Bytes → Bool
  is_mismatch id none = true
  is_mismatch id (some cn) = not (bytes_eq cn id)

  -- The answer for the router of the request, and the common name of the certificate, where there is one.
  unfoldable pub router_info_response : Bytes → Option Bytes → RouterInfoResponse
  unfolding first_answer mismatch_answer is_mismatch
  router_info_response id none = first_answer id
  router_info_response id (some name) =
      if is_mismatch id (env.unmarshal_eui name) then mismatch_answer id name else first_answer id

  -- The bytes that are written, for a request that may not be decoded.
  unfoldable pub handle_router_info : Option Bytes → Option Bytes → Result RouterInfoError Bytes
  unfolding router_info_response
  handle_router_info request name = do
    id ← or_fail read_json_error request
    bytes ←
        or_fail marshal_response_error (env.response_json.marshal (router_info_response id name))
    if env.write_message_ok bytes then ok bytes else err write_response_error
