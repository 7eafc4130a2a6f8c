-- ===== src/Basicstation/Gateways.antt =====
-- internal/backend/basicstation/gateway.go. The methods hold the mutex of the registry while they run,
-- so each is one step. A connection is known by a number, as Go knows it by its pointer.
pub mod Mirror
use chirpstack_gateway_bridg.Prelude.{
  ltb, leb, ◌==◌, if◌then◌else◌, ltb→lt, lt→ltb, leb→le, ==_iff, Bool-cases, Option-cases, is_some,
  length, get_or, take, drop, length-append, take-append, drop-append, take_all, length-take,
  take-append-drop, All, All-append, Pointwise, Result, ok, err, ◌>>=◌, map_err, >>=-eq-ok,
  ok-injective, or_fail, or_fail-eq-ok, Result-cases, Bytes, AreBytes, codes, bytes_eq,
  bytes_eq_iff, put_u16_le, put_u32_be, from_be, u_be, Key, nat_key, bytes_key, beq_refl, lookup,
  insert, delete, lookup-insert, lookup-delete, ℕ, zero, suc, ◌+◌, ◌-◌, ◌*◌, ◌/◌, ◌%◌, ◌^◌, ◌≤◌,
  ◌<◌, ◌≡◌, refl, sym, ap, ◌∙◌, ◌≢◌, ◌↔◌, ◌⊎◌, inl, inr, Bool, true, false, not, ◌&&◌, ◌||◌, Option,
  none, some, List, [], ◌∷◌, ◌++◌, map, arith,
}
use chirpstack_gateway_bridg.Events.{Subscribe, copy_eui}

pub record Gateway : Type 0 where
  pub conn : ℕ
  pub config_version : Bytes

abbrev pub Gateways : Type 0
Gateways = List (Bytes × Gateway)

pub data RegistryError : Type 0 where
  gateway_does_not_exist : RegistryError

unfoldable pub get : Gateways → Bytes → Result RegistryError Gateway
get g id = or_fail gateway_does_not_exist (lookup id g)

-- The registry and the events that are sent.
unfoldable pub set : Gateways → Bytes → Gateway → Gateways × List Subscribe
set g id gw = (insert id gw g, record { gateway_id = id; subscribe = true } ∷ [])

unfoldable pub remove : Gateways → Bytes → Gateways × List Subscribe
remove g id = (delete id g, record { gateway_id = id; subscribe = false } ∷ [])
