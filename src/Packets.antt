-- ===== src/Packets.antt =====
-- internal/backend/semtechudp/packets/packets.go: what all packets of the Semtech UDP protocol
-- share. The children model one packet type each, and use this file.
pub mod Polls
pub mod DataRate
pub mod TxAck
pub mod PullResp
pub mod PushData
use chirpstack_gateway_bridg.Prelude.{
  ltb, ◌==◌, if◌then◌else◌, length, get_or, Result, ok, err, Bytes, ℕ, ◌+◌, ◌-◌, ◌*◌, ◌/◌, ◌%◌, ◌≡◌,
  Bool, not, ◌||◌, Option, none, some, [], ◌∷◌,
}

-- `PacketType` is a byte.
abbrev pub PacketType : Type 0
PacketType = ℕ

abbrev pub push_data : PacketType
push_data = 0

abbrev pub push_ack : PacketType
push_ack = 1

abbrev pub pull_data : PacketType
pull_data = 2

abbrev pub pull_resp : PacketType
pull_resp = 3

abbrev pub pull_ack : PacketType
pull_ack = 4

abbrev pub tx_ack : PacketType
tx_ack = 5

abbrev pub protocol_version1 : ℕ
protocol_version1 = 1

abbrev pub protocol_version2 : ℕ
protocol_version2 = 2

-- The errors of the package, without their texts.
pub data PacketError : Type 0 where
  at_least : ℕ → PacketError
  exactly : ℕ → PacketError
  identifier_mismatch : PacketType → PacketError
  invalid_protocol_version json_error : PacketError

unfoldable pub protocol_supported : ℕ → Bool
protocol_supported p = p == protocol_version1 || p == protocol_version2

-- A byte of the data, at an index that the caller has compared with the length.
abbrev pub at : Bytes → ℕ → ℕ
at bs i = get_or bs i 0

-- `GetPacketType`
unfoldable pub get_packet_type : Bytes → Result PacketError PacketType
unfolding protocol_supported
get_packet_type bs =
    if ltb (length bs) 4
    then err (at_least 4)
    else if not (protocol_supported (at bs 0))
    then err invalid_protocol_version
    else ok (at bs 3)

-- The four bytes that each `MarshalBinary` writes first: the version, the token by
-- `binary.LittleEndian.PutUint16`, and the packet type.
abbrev pub header : ℕ → ℕ → PacketType → Bytes
header version token kind = version ∷ token % 256 ∷ token / 256 % 256 ∷ kind ∷ []

-- `binary.LittleEndian.Uint16(data[1:3])`
abbrev pub token_of : Bytes → ℕ
token_of bs = at bs 1 + 256 * at bs 2

-- The error of `encoding/json` is passed on.
abbrev pub json_result {ℓ} : {A : Type ℓ} → Option A → Result PacketError A
json_result none = err json_error
json_result (some a) = ok a

pub json_result-eq-ok {ℓ} : {A : Type ℓ} (o : Option A) {a : A} → json_result o ≡ ok a → o ≡ some a
json_result-eq-ok none e = cc
json_result-eq-ok (some b) e = cc
