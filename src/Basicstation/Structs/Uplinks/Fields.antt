-- ===== src/Basicstation/Structs/Uplinks/Fields.antt =====
-- join_request.go: the bytes of a join-request.
use mathlib.Core.List.{append_assoc, reverse, reverse_aux, reverse-reverse}
use mathlib.Core.Path.{subst}
use chirpstack_gateway_bridg.Prelude.{
  ==_iff, Bool-cases, length, take, drop, length-append, take-append, drop-append, ok, >>=-eq-ok,
  ok-injective, or_fail, or_fail-eq-ok, Bytes, put_u16_le, nat_key, bytes_key, ℕ, zero, suc, ◌+◌,
  ◌≡◌, refl, sym, ap, ◌∙◌, ◌≢◌, inl, inr, true, some, [], ◌∷◌, ◌++◌, arith,
}
use chirpstack_gateway_bridg.Prelude.Int.{ℤ, pos, negsuc, wrap}
use chirpstack_gateway_bridg.Platform.{Platform, UplinkFrame}
use chirpstack_gateway_bridg.Basicstation.Structs.{
  Station, RadioMetaData, bad_data_rate, bad_fopts, bad_frm_payload, put_u32_le, times_of,
  set_radio_meta_data_to_proto,
}
use chirpstack_gateway_bridg.Basicstation.Structs.Hex.{hex_decode}
use chirpstack_gateway_bridg.Basicstation.Structs.Uplinks.{
  JoinRequest, UplinkDataFrame, is_no_port, join_request_phy, join_request_to_proto,
  port_and_payload, data_frame_phy, uplink_data_frame_to_proto,
}

-- Lists keep their length when they are reversed.
length-reverse_aux : (xs ys : Bytes) → length (reverse_aux xs ys) ≡ length xs + length ys
length-reverse_aux [] ys = omega arith
length-reverse_aux (x ∷ xs) ys = omega (arith, length-reverse_aux xs (x ∷ ys))

length-reverse : (xs : Bytes) → length (reverse xs) ≡ length xs
length-reverse xs = omega (arith, length-reverse_aux xs [])

-- A byte, two runs of eight bytes, and six bytes.
parts :
    (h : ℕ) (a b c : Bytes)
    → length a ≡ 8
    → length b ≡ 8
    → length c ≡ 6
    → (length (h ∷ a ++ (b ++ c)) ≡ 23)
      × (take 1 (h ∷ a ++ (b ++ c)) ≡ h ∷ [])
      × (take 8 (drop 1 (h ∷ a ++ (b ++ c))) ≡ a)
      × (take 8 (drop 9 (h ∷ a ++ (b ++ c))) ≡ b)
      × (drop 17 (h ∷ a ++ (b ++ c)) ≡ c)
parts h a b c la lb lc = (
  omega (arith, length-append a (b ++ c), length-append b c),
  refl,
  take-append a (b ++ c) 8 la,
  ap (take 8) (drop-append a (b ++ c) 8 la) ∙ take-append b c 8 lb,
  ap (drop 16) (sym (append_assoc a b c))
      ∙ drop-append (a ++ b) c 16 (omega (arith, length-append a b)),
)

no_port : (port : ℤ) → is_no_port port ≡ true → port ≡ negsuc 0
no_port (pos n) e = cc
no_port (negsuc n) e = ap negsuc ((==_iff n 0).0 e)

module _ {w : Platform} (s : Station w) where
  set_radio-phy :
      (id phy : Bytes) (r : RadioMetaData s) (f : UplinkFrame w)
      → set_radio_meta_data_to_proto s id r phy ≡ ok f
      → f.phy_payload ≡ phy
  unfolding set_radio_meta_data_to_proto
  set_radio-phy id phy r f e =
      let (d, one, rest) = >>=-eq-ok (or_fail bad_data_rate (s.get_data_rate r.dr)) _ e in
      let (t, two, last) = >>=-eq-ok (times_of s r.gps_time) _ rest in
      ap (λ g. g.phy_payload) (sym (ok-injective last))

  -- The frame of a join-request with eight-byte identifiers is the LoRaWAN encoding of it: 23 bytes, which are the header, the two
  -- identifiers with their bytes reversed, and the nonce and the MIC in little-endian order.
  pub join_request_to_proto_lem :
      (id : Bytes) (jr : JoinRequest s) (f : UplinkFrame w)
      → length jr.join_eui ≡ 8
      → length jr.dev_eui ≡ 8
      → join_request_to_proto s id jr ≡ ok f
      → (length f.phy_payload ≡ 23)
        × (take 1 f.phy_payload ≡ jr.mhdr ∷ [])
        × (reverse (take 8 (drop 1 f.phy_payload)) ≡ jr.join_eui)
        × (reverse (take 8 (drop 9 f.phy_payload)) ≡ jr.dev_eui)
        × (drop 17 f.phy_payload ≡ put_u16_le jr.dev_nonce ++ put_u32_le (wrap 32 jr.mic))
  unfolding join_request_to_proto join_request_phy
  join_request_to_proto_lem id jr f hj hd e =
      subst
        (λ phy.
          (length phy ≡ 23)
          × (take 1 phy ≡ jr.mhdr ∷ [])
          × (reverse (take 8 (drop 1 phy)) ≡ jr.join_eui)
          × (reverse (take 8 (drop 9 phy)) ≡ jr.dev_eui)
          × (drop 17 phy ≡ put_u16_le jr.dev_nonce ++ put_u32_le (wrap 32 jr.mic)))
        (sym (set_radio-phy id (join_request_phy s jr) jr.radio f e))
        (let (l, h, j, d, r) =
            parts jr.mhdr (reverse jr.join_eui) (reverse jr.dev_eui)
              (put_u16_le jr.dev_nonce ++ put_u32_le (wrap 32 jr.mic))
              (length-reverse jr.join_eui ∙ hj) (length-reverse jr.dev_eui ∙ hd) refl in
          (
            l,
            h,
            ap reverse j ∙ reverse-reverse jr.join_eui,
            ap reverse d ∙ reverse-reverse jr.dev_eui,
            r,
          ))

  port_and_payload-none :
      (port : ℤ) (text rest : Bytes)
      → port_and_payload s port text ≡ ok rest
      → port ≡ negsuc 0
      → rest ≡ []
  unfolding port_and_payload
  port_and_payload-none (pos n) text rest e p = absurd (cc)
  port_and_payload-none (negsuc zero) text rest e p = sym (ok-injective e)
  port_and_payload-none (negsuc (suc n)) text rest e p = absurd (cc)

  port_and_payload-some :
      (port : ℤ) (text rest : Bytes)
      → port_and_payload s port text ≡ ok rest
      → port ≢ negsuc 0
      → (b : Bytes) × (hex_decode text ≡ some b) × (rest ≡ wrap 8 port ∷ b)
  unfolding port_and_payload
  port_and_payload-some port text rest e n = elim (Bool-cases (is_no_port port)) [
    | inl portless ↦ absurd (n (no_port port portless))
    | inr ported ↦
        let (b, read, last) =
          >>=-eq-ok (or_fail bad_frm_payload (hex_decode text)) _ (rw ported at e) in
        (b, or_fail-eq-ok bad_frm_payload (hex_decode text) read, sym (ok-injective last))
  ]

  -- The frame of a data uplink ends with its MIC, and starts with its header, device address, control byte and
  -- counter; between them are the decoded options and, if there is a port, the port and the decoded payload.
  pub uplink_data_frame_to_proto_lem :
      (id : Bytes) (u : UplinkDataFrame s) (f : UplinkFrame w)
      → uplink_data_frame_to_proto s id u ≡ ok f
      → (opts rest : Bytes) × (hex_decode u.fopts ≡ some opts)
        × (u.fport ≡ negsuc 0 → rest ≡ [])
        × (u.fport ≢ negsuc 0
            → (b : Bytes) × (hex_decode u.frm_payload ≡ some b) × (rest ≡ wrap 8 u.fport ∷ b))
        × (take 8 f.phy_payload
            ≡ u.mhdr ∷ put_u32_le (wrap 32 u.dev_addr) ++ (u.fctrl ∷ put_u16_le u.fcnt))
        × (drop 8 f.phy_payload ≡ opts ++ (rest ++ put_u32_le (wrap 32 u.mic)))
  unfolding uplink_data_frame_to_proto data_frame_phy
  uplink_data_frame_to_proto_lem id u f e =
      let (frame, one, more) = >>=-eq-ok (set_radio_meta_data_to_proto s id u.radio []) _ e in
      let (phy, two, last) = >>=-eq-ok (data_frame_phy s u) _ more in
      let (opts, three, after) = >>=-eq-ok (or_fail bad_fopts (hex_decode u.fopts)) _ two in
      let (rest, four, whole) = >>=-eq-ok (port_and_payload s u.fport u.frm_payload) _ after in
      let bytes = ok-injective whole ∙ ap (λ g. g.phy_payload) (ok-injective last) in
      (
        opts,
        rest,
        or_fail-eq-ok bad_fopts (hex_decode u.fopts) three,
        port_and_payload-none u.fport u.frm_payload rest four,
        port_and_payload-some u.fport u.frm_payload rest four,
        ap (take 8) (sym bytes),
        ap (drop 8) (sym bytes),
      )
