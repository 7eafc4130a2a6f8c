-- ===== src/Packets/DataRate.antt =====
-- internal/backend/semtechudp/packets: the data-rate of a packet (`DatR` of packets.go), and its LoRa
-- identifier, which pull_resp.go prints and push_data.go parses.
pub mod RoundTrip
use chirpstack_gateway_bridg.Prelude.{
  ◌==◌, if◌then◌else◌, ◌>>=◌, Bytes, codes, bytes_eq, ℕ, ◌+◌, ◌^◌, not, ◌&&◌, Option, none, some,
  [], ◌∷◌, ◌++◌,
}
use chirpstack_gateway_bridg.Decimal.{format_uint, is_digit, parse_uint}

pub record DatR : Type 0 where
  pub lora : Bytes
  pub fsk : ℕ

abbrev quote : ℕ
quote = b'"'

-- `DatR.MarshalJSON`
unfoldable pub marshal_dat_r : DatR → Bytes
marshal_dat_r d =
    if not (bytes_eq d.lora []) then quote ∷ (d.lora ++ quote ∷ []) else format_uint d.fsk

-- `strings.Trim(s, "\"")`, from the left and from the right.
trim_left : Bytes → Bytes
trim_left [] = []
trim_left (c ∷ cs) = if c == quote then trim_left cs else c ∷ cs

-- A quote at the end goes with all that follow it.
trim_right : Bytes → Bytes
trim_right [] = []
trim_right (c ∷ cs) =
    let kept = trim_right cs in if bytes_eq kept [] && c == quote then [] else c ∷ kept

unfoldable pub trim_quotes : Bytes → Bytes
unfolding trim_left trim_right
trim_quotes s = trim_right (trim_left s)

-- `DatR.UnmarshalJSON` on the receiver `d`: what is no unsigned 32-bit number is a LoRa identifier.
unfoldable pub unmarshal_dat_r : DatR → Bytes → DatR
unmarshal_dat_r d json = elim (parse_uint (2 ^ 32) json) [
  | none ↦ record d { lora = trim_quotes json }
  | some i ↦ record d { fsk = i }
]

-- `fmt.Sprintf("SF%dBW%d", sf, bw)`
unfoldable pub lora_data_rate : ℕ → ℕ → Bytes
lora_data_rate sf bw = codes "SF" ++ (format_uint sf ++ (codes "BW" ++ format_uint bw))

strip_prefix : Bytes → Bytes → Option Bytes
strip_prefix [] s = some s
strip_prefix (p ∷ ps) [] = none
strip_prefix (p ∷ ps) (c ∷ cs) = if c == p then strip_prefix ps cs else none

-- `\d+`, which is greedy: the digits in front and the rest.
pub span_digits : Bytes → Bytes × Bytes
unfolding is_digit
span_digits [] = ([], [])
span_digits (c ∷ cs) =
    let rest = span_digits cs in if is_digit c then (c ∷ rest.0, rest.1) else ([], c ∷ cs)

abbrev non_empty : Bytes → Option Bytes
non_empty [] = none
non_empty (c ∷ cs) = some (c ∷ cs)

infixl 5 ◌>>=?◌
abbrev ◌>>=?◌ : {A B : Type 0} → Option A → (A → Option B) → Option B
none >>=? f = none
some a >>=? f = f a

-- A match of `SF(\d+)BW(\d+)` at the start of the text: its two groups.
match_here : Bytes → Option (Bytes × Bytes)
unfolding strip_prefix span_digits
match_here s = strip_prefix (codes "SF") s >>=? λ r. non_empty (span_digits r).0 >>=? λ sf.
    strip_prefix (codes "BW") (span_digits r).1 >>=? λ t.
    non_empty (span_digits t).0 >>=? λ bw. some (sf, bw)

abbrev or_else : {A : Type 0} → Option A → Option A → Option A
or_else none o = o
or_else (some a) o = some a

-- `loRaDataRateRegex.FindStringSubmatch`: the leftmost match.
unfoldable pub find_data_rate : Bytes → Option (Bytes × Bytes)
unfolding match_here
find_data_rate [] = match_here []
find_data_rate (c ∷ cs) = or_else (match_here (c ∷ cs)) (find_data_rate cs)

-- `strconv.Atoi` on a group of the match.
abbrev pub atoi : Bytes → Option ℕ
atoi = parse_uint (2 ^ 63)
