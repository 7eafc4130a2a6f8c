-- ===== src/SemtechUdp/Registry.antt =====
-- internal/backend/semtechudp/registry.go. The methods hold the mutex of the registry while they run,
-- so each is one step. Times are nanoseconds, from Go's zero time.
pub mod Mirror
use chirpstack_gateway_bridg.Prelude.{
  ltb, Result, or_fail, Bytes, nat_key, bytes_key, lookup, insert, delete, ℕ, ◌+◌, ◌*◌, ◌^◌, Bool,
  true, false, Option, none, some, List, [], ◌∷◌, map,
}
use chirpstack_gateway_bridg.Events.{Subscribe}

-- `net.UDPAddr`
pub record UdpAddr : Type 0 where
  pub ip : Bytes
  pub port : ℕ

pub record Gateway : Type 0 where
  pub addr : UdpAddr
  pub last_seen : ℕ
  pub protocol_version : ℕ

abbrev pub Gateways : Type 0
Gateways = List (Bytes × Gateway)

pub data RegistryError : Type 0 where
  gateway_does_not_exist : RegistryError

-- One minute; the source has `-1 * time.Minute`, and adds it to the current time.
abbrev pub gateway_cleanup_duration : ℕ
gateway_cleanup_duration = 60 * 10 ^ 9

unfoldable pub get : Gateways → Bytes → Result RegistryError Gateway
get c mac = or_fail gateway_does_not_exist (lookup mac c)

-- The registry and the events that are sent.
unfoldable pub set : Gateways → Bytes → Gateway → Gateways × List Subscribe
set c gateway_id gw =
    (insert gateway_id gw c, record { gateway_id = gateway_id; subscribe = true } ∷ [])

-- `lastSeen` of an entry; a missing one has the zero time.
last_seen_of : Option Gateway → ℕ
last_seen_of none = 0
last_seen_of (some g) = g.last_seen

unfoldable pub is_stale : ℕ → Option Gateway → Bool
unfolding last_seen_of
is_stale now g = ltb (last_seen_of g + gateway_cleanup_duration) now

-- The loop over the keys, where `clock` is what `time.Now` shows when a key is visited.
sweep : (Bytes → ℕ) → List Bytes → Gateways → Gateways × List Subscribe
sweep clock [] c = (c, [])
sweep clock (id ∷ ids) c = elim (is_stale (clock id) (lookup id c)) [
  | true ↦
      let (rest, sent) = sweep clock ids (delete id c) in
      (rest, record { gateway_id = id; subscribe = false } ∷ sent)
  | false ↦ sweep clock ids c
]

abbrev pub keys : Gateways → List Bytes
keys = map (λ entry. entry.0)

-- `cleanup`; Go visits the keys in any order, here that of the list.
unfoldable pub cleanup : (Bytes → ℕ) → Gateways → Gateways × List Subscribe
unfolding sweep is_stale
cleanup clock c = sweep clock (keys c) c
