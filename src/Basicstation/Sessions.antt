-- ===== src/Basicstation/Sessions.antt =====
-- internal/backend/basicstation/backend.go: `handleGateway`, whose calls run in a goroutine for each connection. A
-- step of a call is what happens under one lock of the registry, and the steps of the calls interleave.
-- The messages of the loop, which change no registry, are in Basicstation/Backend.
pub mod Registered
pub mod Races
pub mod Turns
pub mod Later
use chirpstack_gateway_bridg.Prelude.{
  ltb, leb, ◌==◌, if◌then◌else◌, ltb→lt, lt→ltb, leb→le, ==_iff, Bool-cases, Option-cases, is_some,
  length, get_or, take, drop, length-append, take-append, drop-append, take_all, length-take,
  take-append-drop, All, All-append, Pointwise, Result, ok, err, ◌>>=◌, map_err, >>=-eq-ok,
  ok-injective, or_fail, or_fail-eq-ok, Result-cases, Bytes, AreBytes, codes, bytes_eq,
  bytes_eq_iff, put_u16_le, put_u32_be, from_be, u_be, Key, nat_key, bytes_key, beq_refl, lookup,
  insert, delete, lookup-insert, lookup-delete, ℕ, zero, suc, ◌+◌, ◌-◌, ◌*◌, ◌/◌, ◌%◌, ◌^◌, ◌≤◌,
  ◌<◌, ◌≡◌, refl, sym, ap, ◌∙◌, ◌≢◌, ◌↔◌, ◌⊎◌, inl, inr, Bool, true, false, not, ◌&&◌, ◌||◌, Option,
  none, some, List, [], ◌∷◌, ◌++◌, map, arith,
}
use chirpstack_gateway_bridg.Events.{Subscribe, copy_eui}
use chirpstack_gateway_bridg.Basicstation.Gateways.{
  Gateway, Gateways, RegistryError, gateway_does_not_exist, get, set, remove,
}

-- What is read of the request: the path of the URL, and the common name of the client's certificate.
pub record Request : Type 0 where
  pub path : Bytes
  pub common_name : Option Bytes

pub data RequestError : Type 0 where
  no_gateway_id_in_url bad_gateway_id common_name_mismatch : RequestError

-- `strings.Split(s, "/")`, which has one part at least: the first, and the others.

unfoldable pub split_first : ℕ → Bytes × List Bytes → Bytes × List Bytes
split_first b (p, ps) = if b == 47 then ([], p ∷ ps) else (b ∷ p, ps)

unfoldable pub split_slash : Bytes → Bytes × List Bytes
unfolding split_first
split_slash [] = ([], [])
split_slash (b ∷ bs) = split_first b (split_slash bs)

-- `urlParts[len(urlParts)-1]`, of two parts or more.
unfoldable pub last_part : List Bytes → Option Bytes
last_part [] = none
last_part (p ∷ []) = some p
last_part (p ∷ q ∷ ps) = last_part (q ∷ ps)

-- The check of the certificate, where there is one. `unmarshal` is `lorawan.EUI64.UnmarshalText`.
unfoldable pub verified : (Bytes → Option Bytes) → Bytes → Option Bytes → Result RequestError Bytes
verified unmarshal id none = ok id
verified unmarshal id (some name) = elim (unmarshal name) [
  | none ↦ err common_name_mismatch
  | some cn ↦ if bytes_eq cn id then ok id else err common_name_mismatch
]

unfoldable pub requested_gateway : (Bytes → Option Bytes) → Request → Result RequestError Bytes
unfolding split_slash last_part verified
requested_gateway unmarshal r = do
  part ← or_fail no_gateway_id_in_url (last_part (split_slash r.path).1)
  id ← or_fail bad_gateway_id (unmarshal part)
  verified unmarshal id r.common_name

-- How far the call for a connection is: before the check for another connection of the gateway, between the check
-- and the registration, and in the loop that receives the messages.
pub data Session : Type 0 where
  opened checked registered : Bytes → Session

pub record World : Type 0 where
  pub gateways : Gateways
  pub sessions : List (ℕ × Session)
  pub sent : List Subscribe

-- A call begins, with a gateway identifier that was verified.
unfoldable pub open_session : ℕ → Bytes → World → World
open_session c id w = record w { sessions = insert c (opened id) w.sessions }

-- `b.gateways.get`: another connection of the gateway ends the call.
check : ℕ → Bytes → World → Result RegistryError Gateway → World
check c id w (ok g) = record w { sessions = delete c w.sessions }
check c id w (err e) = record w { sessions = insert c (checked id) w.sessions }

-- `b.gateways.set`
register : ℕ → Bytes → World → World
register c id w =
    let (gateways, sent) = set w.gateways id (record { conn = c; config_version = [] }) in
    record {
      gateways = gateways;
      sessions = insert c (registered id) w.sessions;
      sent = w.sent ++ sent;
    }

-- The next step of the call before its loop.
advance_from : ℕ → World → Option Session → World
unfolding check register
advance_from c w (some (opened id)) = check c id w (get w.gateways id)
advance_from c w (some (checked id)) = register c id w
advance_from c w (some (registered id)) = w
advance_from c w none = w

unfoldable pub advance : ℕ → World → World
unfolding advance_from
advance c w = advance_from c w (lookup c w.sessions)

-- The loop ends on an error of the connection, and the deferred `b.gateways.remove` runs.
leave_from : ℕ → World → Option Session → World
leave_from c w (some (registered id)) =
    let (gateways, sent) = remove w.gateways id in
    record { gateways = gateways; sessions = delete c w.sessions; sent = w.sent ++ sent }
leave_from c w (some (opened id)) = w
leave_from c w (some (checked id)) = w
leave_from c w none = w

unfoldable pub leave : ℕ → World → World
unfolding leave_from
leave c w = leave_from c w (lookup c w.sessions)

-- One step of one call. A new connection has a number that no open one has.
pub data Step (unmarshal : Bytes → Option Bytes) (w : World) (v : World) : Type 0 where
  opens :
      (c : ℕ) (r : Request) (id : Bytes)
      → requested_gateway unmarshal r ≡ ok id
      → lookup c w.sessions ≡ none
      → v ≡ open_session c id w
      → Step unmarshal w v
  advances : (c : ℕ) → v ≡ advance c w → Step unmarshal w v
  leaves : (c : ℕ) → v ≡ leave c w → Step unmarshal w v

-- What is reached from no connection, in any interleaving.
pub data Reach (unmarshal : Bytes → Option Bytes) : World → Type 0 where
  start : Reach unmarshal (record { gateways = []; sessions = []; sent = [] })
  next : {w v : World} → Reach unmarshal w → Step unmarshal w v → Reach unmarshal v
