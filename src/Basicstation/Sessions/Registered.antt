-- ===== src/Basicstation/Sessions/Registered.antt =====
-- `handleGateway` of internal/backend/basicstation/backend.go: whose connection is in the registry.
use mathlib.Core.Path.{subst}
use chirpstack_gateway_bridg.Prelude.{
  if◌then◌else◌, Bool-cases, then-eq, else-eq, Result-cases, Bytes, bytes_eq, bytes_eq_iff, nat_key,
  bytes_key, lookup, insert, delete, lookup-insert, lookup-delete, ℕ, ◌≡◌, refl, sym, ap, ◌∙◌, ◌≢◌,
  inl, inr, false, Option, none, some, List, [], ◌++◌, arith,
}
use chirpstack_gateway_bridg.Events.{Subscribe}
use chirpstack_gateway_bridg.Events.Replay.{replay, replay-append}
use chirpstack_gateway_bridg.Basicstation.Gateways.{Gateway, Gateways, get, set, remove}
use chirpstack_gateway_bridg.Basicstation.Gateways.Mirror.{is_registered, set-replay, remove-replay}
use chirpstack_gateway_bridg.Basicstation.Sessions.{
  Session, opened, checked, registered, World, open_session, check, register, advance_from, advance,
  leave_from, leave, Step, opens, advances, leaves, Reach, start, next,
}

-- A connection in the registry is that of a call that is in its loop for this gateway.
abbrev pub AreOpen : World → Type 0
AreOpen w =
    (id : Bytes) (g : Gateway)
    → lookup id w.gateways ≡ some g
    → lookup g.conn w.sessions ≡ some (registered id)

-- The events tell who is in the registry.
abbrev pub AreMirrored : World → Type 0
AreMirrored w = (id : Bytes) → is_registered id w.gateways ≡ replay id w.sent false

set-lookup :
    (g : Gateways) (id : Bytes) (gw : Gateway) (a : Bytes)
    → lookup a (set g id gw).0 ≡ (if bytes_eq id a then some gw else lookup a g)
unfolding set
set-lookup g id gw a = lookup-insert id a gw g

remove-lookup :
    (g : Gateways) (id a : Bytes)
    → lookup a (remove g id).0 ≡ (if bytes_eq id a then none else lookup a g)
unfolding remove
remove-lookup g id a = lookup-delete id a g

conn_or : ℕ → Option Gateway → ℕ
conn_or c none = c
conn_or c (some g) = g.conn

-- A new session of a connection that is in no loop leaves the entries as they are.
AreOpen-other :
    (w : World) (c : ℕ) (s : Session)
    → ((id : Bytes) → lookup c w.sessions ≢ some (registered id))
    → AreOpen w
    → AreOpen (record w { sessions = insert c s w.sessions })
AreOpen-other w c s h k id g e = ground (arith, lookup-insert c g.conn s w.sessions, k id g e, h id)

AreOpen-closed :
    (w : World) (c : ℕ)
    → ((id : Bytes) → lookup c w.sessions ≢ some (registered id))
    → AreOpen w
    → AreOpen (record w { sessions = delete c w.sessions })
AreOpen-closed w c h k id g e = ground (arith, lookup-delete c g.conn w.sessions, k id g e, h id)

opened≢registered :
    (id a : Bytes) → ◌≢◌ {A = Option Session} (some (opened id)) (some (registered a))
opened≢registered id a e = cc

none≢registered : (a : Bytes) → ◌≢◌ {A = Option Session} none (some (registered a))
none≢registered a e = cc

advance_from-AreOpen :
    (w : World) (c : ℕ) (o : Option Session)
    → lookup c w.sessions ≡ o
    → AreOpen w
    → AreOpen (advance_from c w o)
unfolding advance_from check register conn_or
advance_from-AreOpen w c none e k = k
advance_from-AreOpen w c (some (registered id)) e k = k
advance_from-AreOpen w c (some (opened id)) e k = elim (Result-cases (get w.gateways id)) [
  | inl (g, f) ↦ rw f (AreOpen-closed w c (λ a h. opened≢registered id a (sym e ∙ h)) k)
  | inr (r, f) ↦ rw f (AreOpen-other w c (checked id) (λ a h. opened≢registered id a (sym e ∙ h)) k)
]
advance_from-AreOpen w c (some (checked id)) e k = λ a g f.
    let entry : Gateway = record { conn = c; config_version = [] } in
    elim (Bool-cases (bytes_eq id a)) [
      | inl same ↦
          let is_new : some entry ≡ some g =
            then-eq (bytes_eq id a) _ _ same (sym (set-lookup w.gateways id entry a) ∙ f) in
          let conn : c ≡ g.conn = ap (λ o. conn_or c o) is_new in
          lookup-insert c g.conn (registered id) w.sessions ∙ ground (arith, bytes_eq_iff id a)
      | inr differs ↦
          let before =
            k a g
              (else-eq (bytes_eq id a) _ _ differs (sym (set-lookup w.gateways id entry a) ∙ f)) in
          ground (arith, lookup-insert c g.conn (registered id) w.sessions)
    ]

leave_from-AreOpen :
    (w : World) (c : ℕ) (o : Option Session)
    → lookup c w.sessions ≡ o
    → AreOpen w
    → AreOpen (leave_from c w o)
unfolding leave_from
leave_from-AreOpen w c none e k = k
leave_from-AreOpen w c (some (opened id)) e k = k
leave_from-AreOpen w c (some (checked id)) e k = k
leave_from-AreOpen w c (some (registered id)) e k = λ a g f. ground (
  arith,
  lookup-delete c g.conn w.sessions,
  remove-lookup w.gateways id a,
  bytes_eq_iff id a,
  k a g,
)

-- The same for the events.
AreMirrored-sent :
    (w : World) (gs : Gateways) (es : List Subscribe)
    → ((a : Bytes) → is_registered a gs ≡ replay a es (is_registered a w.gateways))
    → AreMirrored w
    → (a : Bytes) → is_registered a gs ≡ replay a (w.sent ++ es) false
AreMirrored-sent w gs es h k a =
    h a ∙ ap (replay a es) (k a) ∙ sym (replay-append a w.sent es false)

advance_from-AreMirrored :
    (w : World) (c : ℕ) (o : Option Session) → AreMirrored w → AreMirrored (advance_from c w o)
unfolding advance_from check register
advance_from-AreMirrored w c none k = k
advance_from-AreMirrored w c (some (registered id)) k = k
advance_from-AreMirrored w c (some (opened id)) k = elim (Result-cases (get w.gateways id)) [
  | inl (g, f) ↦ rw f k
  | inr (r, f) ↦ rw f k
]
advance_from-AreMirrored w c (some (checked id)) k =
    let entry : Gateway = record { conn = c; config_version = [] } in
    AreMirrored-sent w (set w.gateways id entry).0 (set w.gateways id entry).1
      (set-replay w.gateways id entry) k

leave_from-AreMirrored :
    (w : World) (c : ℕ) (o : Option Session) → AreMirrored w → AreMirrored (leave_from c w o)
unfolding leave_from
leave_from-AreMirrored w c none k = k
leave_from-AreMirrored w c (some (opened id)) k = k
leave_from-AreMirrored w c (some (checked id)) k = k
leave_from-AreMirrored w c (some (registered id)) k =
    AreMirrored-sent w (remove w.gateways id).0 (remove w.gateways id).1
      (remove-replay w.gateways id) k

Step-AreOpen :
    {unmarshal : Bytes → Option Bytes} {w v : World} → Step unmarshal w v → AreOpen w → AreOpen v
unfolding open_session advance leave
Step-AreOpen {w = w} (opens c r id p fresh e) k =
    subst AreOpen (sym e)
      (AreOpen-other w c (opened id) (λ a h. none≢registered a (sym fresh ∙ h)) k)
Step-AreOpen (advances c e) k = subst AreOpen (sym e) (advance_from-AreOpen _ c _ refl k)
Step-AreOpen (leaves c e) k = subst AreOpen (sym e) (leave_from-AreOpen _ c _ refl k)

Step-AreMirrored :
    {unmarshal : Bytes → Option Bytes} {w v : World}
    → Step unmarshal w v
    → AreMirrored w
    → AreMirrored v
unfolding open_session advance leave
Step-AreMirrored (opens c r id p fresh e) k = subst AreMirrored (sym e) k
Step-AreMirrored (advances c e) k = subst AreMirrored (sym e) (advance_from-AreMirrored _ c _ k)
Step-AreMirrored (leaves c e) k = subst AreMirrored (sym e) (leave_from-AreMirrored _ c _ k)

-- However the calls of the connections interleave, a connection that is in the registry for a gateway is that of
-- a call that is in its loop for this gateway.
pub Reach-AreOpen :
    (unmarshal : Bytes → Option Bytes) (w : World) (id : Bytes) (g : Gateway)
    → Reach unmarshal w
    → lookup id w.gateways ≡ some g
    → lookup g.conn w.sessions ≡ some (registered id)
unfolding lookup
Reach-AreOpen unmarshal w id g r e = all r id g e
  where
    all : {v : World} → Reach unmarshal v → AreOpen v
    all start = λ id g e. cc
    all (next r s) = Step-AreOpen s (all r)

-- However the calls of the connections interleave, a gateway is in the registry exactly if the events that were sent
-- ask for a subscription of it.
pub Reach-AreMirrored :
    (unmarshal : Bytes → Option Bytes) (w : World) (id : Bytes)
    → Reach unmarshal w
    → is_registered id w.gateways ≡ replay id w.sent false
unfolding lookup replay
Reach-AreMirrored unmarshal w id r = all r id
  where
    all : {v : World} → Reach unmarshal v → AreMirrored v
    all start = λ id. refl
    all (next r s) = Step-AreMirrored s (all r)
