-- ===== src/Basicstation/Structs/Eui64.antt =====
-- internal/backend/basicstation/structs/eui64.go: the text form of an identifier. The regular expression for the form with
-- dashes, and `lorawan.EUI64.UnmarshalText`, are parameters.
pub mod Texts
use chirpstack_gateway_bridg.Prelude.{
  ltb, leb, ◌==◌, if◌then◌else◌, ltb→lt, lt→ltb, leb→le, ==_iff, Bool-cases, Option-cases, is_some,
  then-eq, else-eq, length, get_or, take, drop, length-append, take-append, drop-append, take_all,
  length-take, take-append-drop, All, All-append, set_at, set_from, fill, set_from-fill, Pointwise,
  Result, ok, err, ◌>>=◌, map_err, >>=-eq-ok, ok-injective, or_fail, or_fail-eq-ok, Result-cases,
  guard-eq-ok, Bytes, AreBytes, codes, bytes_eq, bytes_eq_iff, put_u16_le, put_u32_be, from_be,
  u_be, Key, nat_key, bytes_key, beq_refl, lookup, insert, delete, lookup-insert, lookup-delete, ℕ,
  zero, suc, ◌+◌, ◌-◌, ◌*◌, ◌/◌, ◌%◌, ◌^◌, ◌≤◌, ◌<◌, ◌≡◌, refl, sym, ap, ◌∙◌, ◌≢◌, ◌↔◌, ◌⊎◌, inl,
  inr, Bool, true, false, not, ◌&&◌, ◌||◌, Option, none, some, List, [], ◌∷◌, ◌++◌, map, arith,
}
use chirpstack_gateway_bridg.Prelude.Int.{
  ℤ, pos, negsuc, negate, quotient, wrap, int64, mul_int64, is_zero_ℤ, int_sub, add_int,
  add_int-int_sub, sub_from, add_ℤ, sub_int, leb_ℤ, add_ℤ-sub_from,
}
use chirpstack_gateway_bridg.Basicstation.Structs.Hex.{
  hex_digit, hex_encode, hex_decode, hex_decode-hex_encode,
}

-- The two last ones are panics: a block of more than four digits, and more blocks than there is room for.
pub data Eui64Error : Type 0 where
  unmarshal_eui_error unmarshal_block_error slice_bounds index_bounds : Eui64Error

abbrev pub colon : ℕ
colon = 58

-- `MarshalText`
unfoldable pub marshal_text : Bytes → Bytes
marshal_text e =
    hex_encode (take 2 e)
    ++ (colon ∷ hex_encode (take 2 (drop 2 e))
        ++ (colon ∷ hex_encode (take 2 (drop 4 e)) ++ (colon ∷ hex_encode (take 2 (drop 6 e)))))

-- `strings.Split(v, ":")`: the first part, and the others.
split_part : ℕ → Bytes × List Bytes → Bytes × List Bytes
split_part b (p, ps) = if b == 58 then ([], p ∷ ps) else (b ∷ p, ps)

unfoldable pub split_colon : Bytes → Bytes × List Bytes
unfolding split_part
split_colon [] = ([], [])
split_colon (b ∷ bs) = split_part b (split_colon bs)

-- `strings.Replace(v, "-", "", -1)`
remove_dashes : Bytes → Bytes
remove_dashes [] = []
remove_dashes (b ∷ bs) = let rest = remove_dashes bs in if b == 45 then rest else b ∷ rest

abbrev is_empty : Bytes → Bool
is_empty [] = true
is_empty (b ∷ bs) = false

-- `remainingBlocks`
remaining_blocks : List Bytes → ℕ
remaining_blocks [] = 0
remaining_blocks (b ∷ bs) = let rest = remaining_blocks bs in if is_empty b then rest else suc rest

-- The bytes of a block, from place `i` of the identifier on.
write_from : ℕ → Bytes → Bytes → Result Eui64Error Bytes
write_from i [] eui = ok eui
write_from i (b ∷ bs) eui =
    let rest = write_from (suc i) bs (set_at i b eui) in if ltb i 8 then rest else err index_bounds

write_block : ℤ → Bytes → Bytes → Result Eui64Error Bytes
unfolding write_from
write_block (pos n) bs eui = write_from (n * 2) bs eui
write_block (negsuc n) bs eui = err index_bounds

-- `"0000"[len(block):] + block`
padded : Bytes → Result Eui64Error Bytes
padded block =
    if leb (length block) 4
    then ok (drop (length block) (codes "0000") ++ block)
    else err slice_bounds

abbrev next_block : ℤ → ℤ
next_block (pos n) = pos (suc n)
next_block (negsuc zero) = pos 0
next_block (negsuc (suc n)) = negsuc n

-- One block that is not empty.
read_block : Bytes → ℤ → Bytes → Result Eui64Error Bytes
unfolding padded write_block
read_block block n eui = do
  digits ← padded block
  bytes ← or_fail unmarshal_block_error (hex_decode digits)
  write_block n bytes eui

-- The loop over the blocks, where `skip` blocks are passed over: an empty block stands for so many blocks of zeros that those
-- after it are the last.
read_blocks : ℕ → List Bytes → ℤ → Bytes → Result Eui64Error Bytes
unfolding read_block remaining_blocks
read_blocks skip [] n eui = ok eui
read_blocks (suc skip) (b ∷ bs) n eui = read_blocks skip bs n eui
read_blocks zero (b ∷ bs) n eui =
    if is_empty b
    then read_blocks (length bs - remaining_blocks bs) bs (int_sub 4 (remaining_blocks bs)) eui
    else read_block b n eui >>= λ next. read_blocks 0 bs (next_block n) next

-- `UnmarshalText`
unfoldable pub unmarshal_text :
    (Bytes → Bool) → (Bytes → Option Bytes) → Bytes → Result Eui64Error Bytes
unfolding split_colon remove_dashes read_blocks
unmarshal_text has_dashes of_eui_text text =
    if has_dashes text
    then or_fail unmarshal_eui_error (of_eui_text (remove_dashes text))
    else (let (first, others) = split_colon text in
        read_blocks 0 (first ∷ others) (pos 0) (fill 8 [] 0))
