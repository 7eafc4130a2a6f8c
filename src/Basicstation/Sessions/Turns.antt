-- ===== src/Basicstation/Sessions/Turns.antt =====
-- `handleGateway` of internal/backend/basicstation/backend.go: connections that are made one after the other.
use mathlib.Core.Path.{subst}
use chirpstack_gateway_bridg.Prelude.{
  ◌==◌, ==_iff, Bool-cases, Option-cases, Result, ok, err, or_fail, Bytes, bytes_eq, bytes_eq_iff,
  nat_key, bytes_key, lookup, insert, delete, lookup-insert, lookup-delete, ℕ, ◌≡◌, refl, sym, ap,
  ◌∙◌, ◌≢◌, inl, inr, false, Option, none, some, List, [], arith,
}
use chirpstack_gateway_bridg.Basicstation.Gateways.{
  Gateway, Gateways, RegistryError, gateway_does_not_exist, get, set, remove,
}
use chirpstack_gateway_bridg.Basicstation.Sessions.{
  Request, requested_gateway, Session, opened, checked, registered, World, open_session, check,
  register, advance_from, advance, leave_from, leave,
}

-- A connection that is made without another call between its check and its registration.
pub data Turn (unmarshal : Bytes → Option Bytes) (w : World) (v : World) : Type 0 where
  connects :
      (c : ℕ) (r : Request) (id : Bytes)
      → requested_gateway unmarshal r ≡ ok id
      → lookup c w.sessions ≡ none
      → v ≡ advance c (advance c (open_session c id w))
      → Turn unmarshal w v
  departs : (c : ℕ) → v ≡ leave c w → Turn unmarshal w v

pub data InTurn (unmarshal : Bytes → Option Bytes) : World → Type 0 where
  none_yet : InTurn unmarshal (record { gateways = []; sessions = []; sent = [] })
  then_turn : {w v : World} → InTurn unmarshal w → Turn unmarshal w v → InTurn unmarshal v

-- What `set` puts into the registry.
abbrev pub entry_of : ℕ → Gateway
entry_of c = record { conn = c; config_version = [] }

-- Every call is in its loop, and its connection is in the registry.
abbrev AreServed : World → Type 0
AreServed w =
    (c : ℕ) (s : Session)
    → lookup c w.sessions ≡ some s
    → (id : Bytes) × (s ≡ registered id) × (lookup id w.gateways ≡ some (entry_of c))

connected : ℕ → Bytes → World → Result RegistryError Gateway → World
connected c id w (ok g) = record w { sessions = delete c (insert c (opened id) w.sessions) }
connected c id w (err e) =
    register c id (record w { sessions = insert c (checked id) (insert c (opened id) w.sessions) })

lookup-inserted : (c : ℕ) (s : Session) (m : List (ℕ × Session)) → lookup c (insert c s m) ≡ some s
lookup-inserted c s m = ground (arith, lookup-insert c c s m)

lookup-deleted : (c : ℕ) (m : List (ℕ × Session)) → lookup c (delete c m) ≡ none
lookup-deleted c m = ground (arith, lookup-delete c c m)

lookup-closed :
    (c d : ℕ) (s t : Session) (m : List (ℕ × Session))
    → lookup d (delete c (insert c s m)) ≡ some t
    → lookup d m ≡ some t
lookup-closed c d s t m e = ground (arith, lookup-delete c d (insert c s m), lookup-insert c d s m)

-- An entry of another connection, after the three steps of this one.
lookup-other :
    (c d : ℕ) (t x y z : Session) (m : List (ℕ × Session))
    → (c == d) ≡ false
    → lookup d (insert c x (insert c y (insert c z m))) ≡ some t
    → lookup d m ≡ some t
lookup-other c d t x y z m h e = ground (
  arith,
  lookup-insert c d x (insert c y (insert c z m)),
  lookup-insert c d y (insert c z m),
  lookup-insert c d z m,
)

connect_lem :
    (c : ℕ) (id : Bytes) (w : World)
    → advance c (advance c (open_session c id w)) ≡ connected c id w (get w.gateways id)
unfolding advance open_session check connected advance_from
connect_lem c id w =
    ap (λ o. advance c (advance_from c (open_session c id w) o))
      (lookup-inserted c (opened id) w.sessions)
    ∙ second (get w.gateways id)
  where
    second :
        (m : Result RegistryError Gateway)
        → advance c (check c id (open_session c id w) m) ≡ connected c id w m
    second (ok g) =
        ap (advance_from c (connected c id w (ok g)))
          (lookup-deleted c (insert c (opened id) w.sessions))
    second (err e) =
        ap
          (advance_from c
            (record w { sessions = insert c (checked id) (insert c (opened id) w.sessions) }))
          (lookup-inserted c (checked id) (insert c (opened id) w.sessions))

ok≢err : (g : Gateway) (e : RegistryError) → ◌≢◌ {A = Result RegistryError Gateway} (ok g) (err e)
ok≢err g e h = cc

get-none :
    (gs : Gateways) (id : Bytes) (e : RegistryError) → get gs id ≡ err e → lookup id gs ≡ none
unfolding get
get-none gs id e h = elim (Option-cases (lookup id gs)) [
  | inl n ↦ n
  | inr (g, s) ↦ absurd (ok≢err g e (ap (or_fail gateway_does_not_exist) (sym s) ∙ h))
]

connected-AreServed :
    (c : ℕ) (id : Bytes) (w : World) (m : Result RegistryError Gateway)
    → get w.gateways id ≡ m
    → AreServed w
    → AreServed (connected c id w m)
unfolding connected register set
connected-AreServed c id w (ok g) e k =
    λ d s f. k d s (lookup-closed c d (opened id) s w.sessions f)
connected-AreServed c id w (err r) e k = λ d s f. elim (Bool-cases (c == d)) [
  | inl same ↦ (
    id,
    ground (
      arith,
      lookup-insert c d (registered id) (insert c (checked id) (insert c (opened id) w.sessions)),
    ),
    lookup-insert id id (entry_of c) w.gateways
        ∙ ground (arith, bytes_eq_iff id id, ap entry_of ((==_iff c d).0 same)),
  )
  | inr differs ↦
      let (a, p, l) =
        k d s (lookup-other c d s (registered id) (checked id) (opened id) w.sessions differs f) in
      (
        a,
        p,
        lookup-insert id a (entry_of c) w.gateways
            ∙ ground (arith, bytes_eq_iff id a, get-none w.gateways id r e, l),
      )
]

gateway_of : Session → Bytes
gateway_of (opened id) = id
gateway_of (checked id) = id
gateway_of (registered id) = id

-- Two connections have two gateways.
distinct_gateways :
    (c d : ℕ) (id a : Bytes) (w : World)
    → ((x : Bytes) × (registered id ≡ registered x) × (lookup x w.gateways ≡ some (entry_of c)))
    → lookup a w.gateways ≡ some (entry_of d)
    → (c == d) ≡ false
    → bytes_eq id a ≡ false
unfolding gateway_of
distinct_gateways c d id a w (x, p, l) m h =
    let same : id ≡ x = ap gateway_of p in ground (arith, bytes_eq_iff id a)

leave-AreServed :
    (c : ℕ) (w : World) (o : Option Session)
    → lookup c w.sessions ≡ o
    → AreServed w
    → AreServed (leave_from c w o)
unfolding leave_from remove
leave-AreServed c w none e k = k
leave-AreServed c w (some (opened id)) e k = k
leave-AreServed c w (some (checked id)) e k = k
leave-AreServed c w (some (registered id)) e k = λ d s f. elim (Bool-cases (c == d)) [
  | inl same ↦ absurd (ground (arith, lookup-delete c d w.sessions))
  | inr differs ↦
      let (a, p, l) = k d s (ground (arith, lookup-delete c d w.sessions)) in
      (
        a,
        p,
        lookup-delete id a w.gateways
            ∙ ground (arith, distinct_gateways c d id a w (k c (registered id) e) l differs),
      )
]

Turn-AreServed :
    {unmarshal : Bytes → Option Bytes} {w v : World}
    → Turn unmarshal w v
    → AreServed w
    → AreServed v
unfolding leave
Turn-AreServed {w = w} (connects c r id p fresh e) k =
    subst AreServed (sym (e ∙ connect_lem c id w))
      (connected-AreServed c id w (get w.gateways id) refl k)
Turn-AreServed {w = w} (departs c e) k =
    subst AreServed (sym e) (leave-AreServed c w (lookup c w.sessions) refl k)

-- As long as each connection is checked and registered before another is checked, every open connection is in its
-- loop, and the registry gives this connection for its gateway.
pub InTurn-get :
    (unmarshal : Bytes → Option Bytes) (w : World) (c : ℕ) (s : Session)
    → InTurn unmarshal w
    → lookup c w.sessions ≡ some s
    → (id : Bytes) × (s ≡ registered id) × (get w.gateways id ≡ ok (entry_of c))
unfolding get lookup
InTurn-get unmarshal w c s r e =
    let (id, p, l) = all r c s e in (id, p, ap (or_fail gateway_does_not_exist) l)
  where
    all : {v : World} → InTurn unmarshal v → AreServed v
    all none_yet = λ c s e. cc
    all (then_turn r t) = Turn-AreServed t (all r)
