-- ===== src/Basicstation/Structs/Uplinks.antt =====
-- join_request.go, uplink_data_frame.go, uplink_proprietary.go and downlink_transmitted.go. Fields of Go's
-- `EUI64` are eight bytes.
pub mod Fields
use mathlib.Core.List.{reverse}
use chirpstack_gateway_bridg.Prelude.{
  ◌==◌, if◌then◌else◌, Result, ok, ◌>>=◌, or_fail, Bytes, put_u16_le, ℕ, ◌+◌, Bool, false, [], ◌∷◌,
  ◌++◌,
}
use chirpstack_gateway_bridg.Prelude.Int.{ℤ, pos, negsuc, wrap}
use chirpstack_gateway_bridg.Platform.{Platform, UplinkFrame, DownlinkTxAck}
use chirpstack_gateway_bridg.Basicstation.Structs.{
  Station, RadioMetaData, UplinkError, bad_fopts, bad_frm_payload, put_u32_le,
  set_radio_meta_data_to_proto,
}
use chirpstack_gateway_bridg.Basicstation.Structs.Hex.{hex_decode}

pub record JoinRequest {w : Platform} (s : Station w) : Type 0 where
  pub radio : RadioMetaData s
  pub mhdr : ℕ
  pub join_eui : Bytes
  pub dev_eui : Bytes
  pub dev_nonce : ℕ
  pub mic : ℤ

pub record UplinkDataFrame {w : Platform} (s : Station w) : Type 0 where
  pub radio : RadioMetaData s
  pub mhdr : ℕ
  pub dev_addr : ℤ
  pub fctrl : ℕ
  pub fcnt : ℕ
  pub fopts : Bytes
  pub fport : ℤ
  pub frm_payload : Bytes
  pub mic : ℤ

pub record UplinkProprietaryFrame {w : Platform} (s : Station w) : Type 0 where
  pub radio : RadioMetaData s
  pub frm_payload : Bytes

abbrev is_no_port : ℤ → Bool
is_no_port (pos n) = false
is_no_port (negsuc n) = n == 0

module _ {w : Platform} (s : Station w) where
  -- The bytes of the frame, with the identifiers in little-endian order.
  unfoldable pub join_request_phy : JoinRequest s → Bytes
  join_request_phy jr =
      jr.mhdr ∷ reverse jr.join_eui
      ++ (reverse jr.dev_eui ++ (put_u16_le jr.dev_nonce ++ put_u32_le (wrap 32 jr.mic)))

  -- `JoinRequestToProto`
  unfoldable pub join_request_to_proto : Bytes → JoinRequest s → Result UplinkError (UplinkFrame w)
  join_request_to_proto gateway_id jr =
      set_radio_meta_data_to_proto s gateway_id jr.radio (join_request_phy jr)

  -- The port and the payload, which a frame without port has not.
  port_and_payload : ℤ → Bytes → Result UplinkError Bytes
  port_and_payload port payload =
      if is_no_port port
      then ok []
      else or_fail bad_frm_payload (hex_decode payload) >>= λ b. ok (wrap 8 port ∷ b)

  data_frame_phy : UplinkDataFrame s → Result UplinkError Bytes
  unfolding port_and_payload
  data_frame_phy f = do
    opts ← or_fail bad_fopts (hex_decode f.fopts)
    rest ← port_and_payload f.fport f.frm_payload
    ok (
        f.mhdr ∷ put_u32_le (wrap 32 f.dev_addr)
        ++ (f.fctrl ∷ put_u16_le f.fcnt ++ (opts ++ (rest ++ put_u32_le (wrap 32 f.mic)))))

  -- `UplinkDataFrameToProto`: the radio's data are read before the bytes.
  unfoldable pub uplink_data_frame_to_proto :
      Bytes → UplinkDataFrame s → Result UplinkError (UplinkFrame w)
  unfolding data_frame_phy
  uplink_data_frame_to_proto gateway_id f = do
    frame ← set_radio_meta_data_to_proto s gateway_id f.radio []
    phy ← data_frame_phy f
    ok (record frame { phy_payload = phy })

  -- `UplinkProprietaryFrameToProto`
  unfoldable pub uplink_proprietary_frame_to_proto :
      Bytes → UplinkProprietaryFrame s → Result UplinkError (UplinkFrame w)
  uplink_proprietary_frame_to_proto gateway_id f = do
    frame ← set_radio_meta_data_to_proto s gateway_id f.radio []
    phy ← or_fail bad_frm_payload (hex_decode f.frm_payload)
    ok (record frame { phy_payload = phy })

-- `DownlinkTransmittedToProto`, of the number of the downlink.
unfoldable pub downlink_transmitted_to_proto : Bytes → ℕ → DownlinkTxAck
downlink_transmitted_to_proto gateway_id diid = record {
  gateway_id = gateway_id;
  token = diid;
  downlink_id = [];
  error = [];
}
