-- ===== src/Basicstation/Structs/Eui64/Texts.antt =====
-- eui64.go: an identifier is read back from its text.
use chirpstack_gateway_bridg.Prelude.{
  ◌==◌, All, fill, ok, ◌>>=◌, or_fail, Bytes, AreBytes, nat_key, bytes_key, ℕ, suc, ◌/◌, ◌%◌, ◌≡◌,
  refl, ap, ◌∙◌, Bool, false, Option, List, [], ◌∷◌, ◌++◌, arith,
}
use chirpstack_gateway_bridg.Prelude.Int.{ℤ, pos}
use chirpstack_gateway_bridg.Basicstation.Structs.Hex.{hex_digit, hex_encode, hex_decode-hex_encode}
use chirpstack_gateway_bridg.Basicstation.Structs.Eui64.{
  unmarshal_block_error, marshal_text, split_part, split_colon, write_from, write_block, padded,
  read_block, read_blocks, unmarshal_text,
}

abbrev HasNoColon : Bytes → Type 0
HasNoColon = All (λ b. (b == 58) ≡ false)

hex_digit-no_colon : (n : ℕ) → (hex_digit n == 58) ≡ false
hex_digit-no_colon n = ground arith

hex_encode-HasNoColon : (bs : Bytes) → HasNoColon (hex_encode bs)
unfolding hex_encode
hex_encode-HasNoColon [] = tt
hex_encode-HasNoColon (b ∷ bs) =
    (hex_digit-no_colon (b / 16), (hex_digit-no_colon (b % 16), hex_encode-HasNoColon bs))

split_colon-last : (xs : Bytes) → HasNoColon xs → split_colon xs ≡ (xs, [])
unfolding split_colon split_part
split_colon-last [] h = refl
split_colon-last (x ∷ xs) h = ap (split_part x) (split_colon-last xs h.1) ∙ rw h.0 refl

split_colon-append :
    (xs rest : Bytes) (ps : Bytes × List Bytes)
    → HasNoColon xs
    → split_colon rest ≡ ps
    → split_colon (xs ++ (58 ∷ rest)) ≡ (xs, ps.0 ∷ ps.1)
unfolding split_colon split_part
split_colon-append [] rest ps h e = ap (split_part 58) e
split_colon-append (x ∷ xs) rest ps h e =
    ap (split_part x) (split_colon-append xs rest ps h.1 e) ∙ rw h.0 refl

read_block-hex_encode :
    (x y : ℕ) (n : ℤ) (eui : Bytes)
    → AreBytes (x ∷ y ∷ [])
    → read_block (hex_encode (x ∷ y ∷ [])) n eui ≡ write_block n (x ∷ y ∷ []) eui
unfolding read_block padded hex_encode
read_block-hex_encode x y n eui h =
    ap (λ o. or_fail unmarshal_block_error o >>= λ bytes. write_block n bytes eui)
      (hex_decode-hex_encode (x ∷ y ∷ []) h)

read_blocks-hex_encode :
    (x y n : ℕ) (bs : List Bytes) (eui next : Bytes)
    → AreBytes (x ∷ y ∷ [])
    → write_block (pos n) (x ∷ y ∷ []) eui ≡ ok next
    → read_blocks 0 (hex_encode (x ∷ y ∷ []) ∷ bs) (pos n) eui ≡ read_blocks 0 bs (pos (suc n)) next
unfolding read_blocks hex_encode
read_blocks-hex_encode x y n bs eui next h e =
    ap (λ m. m >>= λ next. read_blocks 0 bs (pos (suc n)) next)
      (read_block-hex_encode x y (pos n) eui h ∙ e)

four_blocks :
    (a b c d e f g h : ℕ)
    → AreBytes (a ∷ b ∷ c ∷ d ∷ e ∷ f ∷ g ∷ h ∷ [])
    → read_blocks 0
        (hex_encode (a ∷ b ∷ [])
          ∷ hex_encode (c ∷ d ∷ [])
          ∷ hex_encode (e ∷ f ∷ [])
          ∷ hex_encode (g ∷ h ∷ [])
          ∷ [])
        (pos 0)
        (fill 8 [] 0)
      ≡ ok (a ∷ b ∷ c ∷ d ∷ e ∷ f ∷ g ∷ h ∷ [])
unfolding read_blocks write_block write_from
four_blocks a b c d e f g h (ka, (kb, (kc, (kd, (ke, (kf, (kg, (kh, u)))))))) =
    let last : List Bytes = hex_encode (g ∷ h ∷ []) ∷ [] in
    let third : List Bytes = hex_encode (e ∷ f ∷ []) ∷ last in
    let second : List Bytes = hex_encode (c ∷ d ∷ []) ∷ third in
    read_blocks-hex_encode a b 0 second (fill 8 [] 0) (a ∷ b ∷ fill 6 [] 0) (ka, (kb, tt)) refl
    ∙ read_blocks-hex_encode c d 1 third (a ∷ b ∷ fill 6 [] 0) (a ∷ b ∷ c ∷ d ∷ fill 4 [] 0)
        (kc, (kd, tt)) refl
    ∙ read_blocks-hex_encode e f 2 last (a ∷ b ∷ c ∷ d ∷ fill 4 [] 0)
        (a ∷ b ∷ c ∷ d ∷ e ∷ f ∷ fill 2 [] 0) (ke, (kf, tt)) refl
    ∙ read_blocks-hex_encode g h 3 [] (a ∷ b ∷ c ∷ d ∷ e ∷ f ∷ fill 2 [] 0)
        (a ∷ b ∷ c ∷ d ∷ e ∷ f ∷ g ∷ h ∷ []) (kg, (kh, tt)) refl

-- An identifier of eight bytes is read back from its text, if the regular expression, which wants dashes, does not find the text, which has
-- none.
pub unmarshal_text-marshal_text :
    (has_dashes : Bytes → Bool) (of_eui_text : Bytes → Option Bytes) (a b c d e f g h : ℕ)
    → AreBytes (a ∷ b ∷ c ∷ d ∷ e ∷ f ∷ g ∷ h ∷ [])
    → has_dashes (marshal_text (a ∷ b ∷ c ∷ d ∷ e ∷ f ∷ g ∷ h ∷ [])) ≡ false
    → unmarshal_text has_dashes of_eui_text (marshal_text (a ∷ b ∷ c ∷ d ∷ e ∷ f ∷ g ∷ h ∷ []))
      ≡ ok (a ∷ b ∷ c ∷ d ∷ e ∷ f ∷ g ∷ h ∷ [])
unfolding unmarshal_text marshal_text
unmarshal_text-marshal_text has_dashes of_eui_text a b c d e f g h k no_dashes = rw no_dashes (
    ap (λ ps. read_blocks 0 (ps.0 ∷ ps.1) (pos 0) (fill 8 [] 0)) parts
    ∙ four_blocks a b c d e f g h k)
  where
    parts : split_colon (marshal_text (a ∷ b ∷ c ∷ d ∷ e ∷ f ∷ g ∷ h ∷ [])) ≡ (
      hex_encode (a ∷ b ∷ []),
      hex_encode (c ∷ d ∷ []) ∷ hex_encode (e ∷ f ∷ []) ∷ hex_encode (g ∷ h ∷ []) ∷ [],
    )
    parts = split_colon-append (hex_encode (a ∷ b ∷ [])) _ _ (hex_encode-HasNoColon (a ∷ b ∷ [])) (
        split_colon-append (hex_encode (c ∷ d ∷ [])) _ _ (hex_encode-HasNoColon (c ∷ d ∷ [])) (
          split_colon-append (hex_encode (e ∷ f ∷ [])) _ _ (hex_encode-HasNoColon (e ∷ f ∷ []))
            (split_colon-last (hex_encode (g ∷ h ∷ [])) (hex_encode-HasNoColon (g ∷ h ∷ [])))))
