-- ===== src/Packets/DataRate/RoundTrip.antt =====
-- What pull_resp.go prints for a data-rate, push_data.go and packets.go read back.
use mathlib.Core.List.{append-nil}
use chirpstack_gateway_bridg.Prelude.{
  ◌==◌, if◌then◌else◌, All, Bytes, codes, bytes_eq, ℕ, ◌^◌, ◌<◌, ◌≡◌, refl, ◌≢◌, false, some, [],
  ◌∷◌, ◌++◌, arith,
}
use chirpstack_gateway_bridg.Decimal.{
  format_uint, parse_uint, AreDigits, format_uint-AreDigits, format_uint-ne-nil,
  parse_uint-format_uint,
}
use chirpstack_gateway_bridg.Packets.DataRate.{
  DatR, quote, marshal_dat_r, trim_left, trim_right, trim_quotes, unmarshal_dat_r, lora_data_rate,
  span_digits, non_empty, match_here, find_data_rate, atoi,
}

span_digits-append :
    (xs ys : Bytes) → AreDigits xs → span_digits ys ≡ ([], ys) → span_digits (xs ++ ys) ≡ (xs, ys)
unfolding span_digits
span_digits-append [] ys d e = e
span_digits-append (c ∷ cs) ys d e = rw (d.0, span_digits-append cs ys d.1 e)

span_digits_all : (xs : Bytes) → AreDigits xs → span_digits xs ≡ (xs, [])
span_digits_all xs d = rw append-nil at (span_digits-append xs [] d (unfold span_digits in refl))

non_empty-some : (xs : Bytes) → xs ≢ [] → non_empty xs ≡ some xs
non_empty-some [] h = absurd (h refl)
non_empty-some (x ∷ xs) h = refl

match_here-lora_data_rate :
    (xs ys : Bytes)
    → AreDigits xs
    → AreDigits ys
    → xs ≢ []
    → ys ≢ []
    → match_here (codes "SF" ++ (xs ++ (codes "BW" ++ ys))) ≡ some (xs, ys)
match_here-lora_data_rate xs ys dx dy nx ny =
    let sf = span_digits-append xs (codes "BW" ++ ys) dx (unfold span_digits in refl) in
    unfold match_here in
    rw (sf, non_empty-some xs nx) (rw (span_digits_all ys dy, non_empty-some ys ny))

-- The LoRa data-rate that is printed for a downlink is found by the expression for uplinks, and its
-- two groups are the spreading-factor and the bandwidth, for all 32-bit values.
pub find_data_rate-lora_data_rate :
    (sf bw : ℕ)
    → sf < 2 ^ 32
    → bw < 2 ^ 32
    → (groups : Bytes × Bytes) × (find_data_rate (lora_data_rate sf bw) ≡ some groups)
      × (atoi groups.0 ≡ some sf)
      × (atoi groups.1 ≡ some bw)
unfolding find_data_rate lora_data_rate
find_data_rate-lora_data_rate sf bw hs hb = (
  (format_uint sf, format_uint bw),
  rw (
      match_here-lora_data_rate (format_uint sf) (format_uint bw) (format_uint-AreDigits sf)
        (format_uint-AreDigits bw) (format_uint-ne-nil sf) (format_uint-ne-nil bw)),
  parse_uint-format_uint (2 ^ 63) sf (omega arith) (omega arith),
  parse_uint-format_uint (2 ^ 63) bw (omega arith) (omega arith),
)

-- A LoRa identifier is text without quotes.
abbrev pub HasNoQuote : Bytes → Type 0
HasNoQuote = All (λ c. (c == quote) ≡ false)

trim_right_quote : (xs : Bytes) → HasNoQuote xs → trim_right (xs ++ quote ∷ []) ≡ xs
unfolding trim_right
trim_right_quote [] h = refl
trim_right_quote (c ∷ cs) h = rw (trim_right_quote cs h.1) (ground arith)

trim_quotes_quoted :
    (xs : Bytes) → HasNoQuote xs → xs ≢ [] → trim_quotes (quote ∷ (xs ++ quote ∷ [])) ≡ xs
unfolding trim_quotes trim_left
trim_quotes_quoted [] h n = absurd (n refl)
trim_quotes_quoted (c ∷ cs) h n = rw (h.0) (trim_right_quote (c ∷ cs) h)

unmarshal_dat_r_parts :
    (l : Bytes) (n : ℕ)
    → HasNoQuote l
    → n < 2 ^ 32
    → unmarshal_dat_r (record { lora = []; fsk = 0 }) (marshal_dat_r (record { lora = l; fsk = n }))
      ≡ (if bytes_eq l [] then record { lora = l; fsk = n } else record { lora = l; fsk = 0 })
unmarshal_dat_r_parts [] n h k =
    unfold unmarshal_dat_r marshal_dat_r in
    rw (parse_uint-format_uint (2 ^ 32) n k (omega arith), unmarshal_dat_r)
unmarshal_dat_r_parts (c ∷ cs) n h k =
    unfold unmarshal_dat_r marshal_dat_r parse_uint in rw (trim_quotes_quoted (c ∷ cs) h (λ e. cc))

-- The JSON text of a data-rate decodes to the same data-rate: of an FSK data-rate of 32 bits, and of
-- a LoRa identifier without quotes, for which the FSK field is neither written nor read.
pub unmarshal-marshal_dat_r :
    (d : DatR)
    → HasNoQuote d.lora
    → d.fsk < 2 ^ 32
    → unmarshal_dat_r (record { lora = []; fsk = 0 }) (marshal_dat_r d)
      ≡ (if bytes_eq d.lora [] then d else record d { fsk = 0 })
unmarshal-marshal_dat_r d h k = unmarshal_dat_r_parts d.lora d.fsk h k
