-- ===== src/Forwarder/Mirror.antt =====
-- forwarder.go, registry.go and mqtt/backend.go: the subscriptions follow the registry.
use chirpstack_gateway_bridg.Prelude.{
  if◌then◌else◌, Bool-cases, bytes_eq, ◌||◌, inl, inr, is_some, ok, Bytes, nat_key, bytes_key,
  lookup, ℕ, suc, ◌≡◌, refl, sym, ap, ◌∙◌, Bool, true, false, some, List, [], ◌∷◌, ◌++◌, map, arith,
}
use mathlib.Core.List.{append-nil, append_assoc}
use chirpstack_gateway_bridg.Filters.{Lorawan}
use chirpstack_gateway_bridg.Events.{Subscribe}
use chirpstack_gateway_bridg.Events.Replay.{replay}
use chirpstack_gateway_bridg.Mqtt.Subscription.{Client}
use chirpstack_gateway_bridg.Mqtt.Subscription.Synced.{
  AcceptsWithin, IsSynced, set_gateway_subscription_lem,
}
use chirpstack_gateway_bridg.SemtechUdp.Registry.{Gateways}
use chirpstack_gateway_bridg.SemtechUdp.Registry.Mirror.{Call, run, is_registered, run-replay}
use chirpstack_gateway_bridg.Forwarder.{Forwarder, setup_gateways, gateway_subscribe_loop, setup}

-- The events that would ask for the subscriptions of `Setup`.
abbrev pub asks : List Bytes → List Subscribe
asks ids = map (λ id. record { gateway_id = id; subscribe = true }) ids

-- Whether an event is for the gateway.
abbrev pub is_named : Bytes → List Subscribe → Bool
is_named a [] = false
is_named a (e ∷ es) = bytes_eq e.gateway_id a || is_named a es

abbrev pub is_listed : Bytes → List Bytes → Bool
is_listed a [] = false
is_listed a (id ∷ ids) = bytes_eq id a || is_listed a ids

-- What was subscribed before counts only for a gateway that no event is for.
replay-is_named :
    (a : Bytes) (es : List Subscribe) (o : Bool)
    → replay a es o ≡ (if is_named a es then replay a es false else o)
unfolding replay
replay-is_named a [] o = refl
replay-is_named a (e ∷ es) o = elim (Bool-cases (bytes_eq e.gateway_id a)) [
  | inl t ↦ rw t refl
  | inr f ↦ rw f (replay-is_named a es o)
]

replay-asks :
    (a : Bytes) (ids : List Bytes) (o : Bool) → replay a (asks ids) o ≡ is_listed a ids || o
unfolding replay
replay-asks a [] o = refl
replay-asks a (id ∷ ids) o =
    replay-asks a ids (if bytes_eq id a then true else o) ∙ asked (bytes_eq id a) (is_listed a ids)
  where
    asked : (t b : Bool) → b || (if t then true else o) ≡ (t || b) || o
    asked t b = ground arith

or-false : (b : Bool) → b || false ≡ b
or-false b = ground arith

module _ (command_topic : Bytes → Bytes)
    (distinct : (a b : Bytes) → command_topic a ≡ command_topic b → a ≡ b) (answers : ℕ → ℕ → Bool)
    (fuel : ℕ) (accepts : (n : ℕ) → AcceptsWithin (answers n) fuel) where
  -- The loop handles all events, and leaves the subscriptions that they ask for.
  gateway_subscribe_loop-replay :
      (es : List Subscribe) (n : ℕ) (c : Client)
      → IsSynced command_topic distinct c
      → (c' : Client) × (gateway_subscribe_loop command_topic answers fuel n es c ≡ some c')
        × IsSynced command_topic distinct c'
        × ((a : Bytes)
            → is_some (lookup a c'.gateways) ≡ replay a es (is_some (lookup a c.gateways)))
  unfolding gateway_subscribe_loop replay
  gateway_subscribe_loop-replay [] n c h = (c, refl, h, λ a. refl)
  gateway_subscribe_loop-replay (e ∷ es) n c h =
      let (d, one, hd, gd) =
        set_gateway_subscription_lem command_topic distinct (answers n) fuel e.subscribe
          e.gateway_id c (accepts n) h in
      let (c', rest, hc, gc) = gateway_subscribe_loop-replay es (suc n) d hd in
      (
        c',
        rw (one, gateway_subscribe_loop) rest,
        hc,
        λ a. gc a ∙ ap (replay a es) (ground (arith, gd a)),
      )

  -- If the broker accepts one of the requests of each call, and the client is subscribed to exactly the
  -- registered gateways, then after any calls of the registry the loop handles all their events, and
  -- leaves the client subscribed to exactly the registered gateways, whose topics the broker has.
  pub gateway_subscribe_loop-run :
      (calls : List Call) (registry : Gateways) (n : ℕ) (c : Client)
      → IsSynced command_topic distinct c
      → ((a : Bytes) → is_some (lookup a c.gateways) ≡ is_registered a registry)
      → (c' : Client) × (gateway_subscribe_loop command_topic answers fuel n
            (run registry calls).1
            c
          ≡ some c')
        × IsSynced command_topic distinct c'
        × ((a : Bytes) → is_some (lookup a c'.gateways) ≡ is_registered a (run registry calls).0)
  gateway_subscribe_loop-run calls registry n c h same =
      let (c', done, hc, gc) = gateway_subscribe_loop-replay (run registry calls).1 n c h in
      (
        c',
        done,
        hc,
        λ a.
            gc a
            ∙ ap (replay a (run registry calls).1) (same a)
            ∙ sym (run-replay calls registry a),
      )

  -- `Setup`, where the identifiers can be read.
  setup_gateways-replay :
      (lw : Lorawan) (texts ids : List Bytes) (n : ℕ) (f : Forwarder)
      → map lw.eui_of_text texts ≡ map some ids
      → IsSynced command_topic distinct f.client
      → (f' : Forwarder) × (setup_gateways command_topic answers fuel lw n texts f ≡ some (ok f'))
        × (f'.always_subscribe ≡ f.always_subscribe ++ ids)
        × IsSynced command_topic distinct f'.client
        × ((a : Bytes)
            → is_some (lookup a f'.client.gateways)
              ≡ replay a (asks ids) (is_some (lookup a f.client.gateways)))
  unfolding setup_gateways replay
  setup_gateways-replay lw [] [] n f e h = (f, refl, rw append-nil refl, h, λ a. refl)
  setup_gateways-replay lw [] (id ∷ ids) n f e h = cc
  setup_gateways-replay lw (text ∷ texts) [] n f e h = cc
  setup_gateways-replay lw (text ∷ texts) (id ∷ ids) n f e h =
      let reads : lw.eui_of_text text ≡ some id = cc in
      let (d, one, hd, gd) =
        set_gateway_subscription_lem command_topic distinct (answers n) fuel true id f.client
          (accepts n) h in
      let next : Forwarder = record {
        always_subscribe = f.always_subscribe ++ id ∷ [];
        client = d;
      } in
      let (f', rest, all, hc, gc) = setup_gateways-replay lw texts ids (suc n) next (cc) hd in
      (
        f',
        rw (reads, setup_gateways, one, setup_gateways) rest,
        all ∙ append_assoc f.always_subscribe (id ∷ []) ids,
        hc,
        λ a. gc a ∙ ap (replay a (asks ids)) (ground (arith, gd a)),
      )

  -- If the identifiers of all configured gateways can be read, and the broker accepts one of the requests of each
  -- call, `Setup` of a client without subscriptions returns without an error: `alwaysSubscribe` is the list of those gateways, and the client is
  -- subscribed to exactly them, so that the broker has their topics.
  pub setup-subscribed :
      (lw : Lorawan) (texts ids : List Bytes)
      → map lw.eui_of_text texts ≡ map some ids
      → (f : Forwarder) × (setup command_topic answers fuel lw texts
            (record { gateways = []; topics = [] })
          ≡ some (ok f))
        × (f.always_subscribe ≡ ids)
        × IsSynced command_topic distinct f.client
        × ((a : Bytes) → is_some (lookup a f.client.gateways) ≡ replay a (asks ids) false)
  unfolding setup lookup
  setup-subscribed lw texts ids e =
      setup_gateways-replay lw texts ids 0
        (record { always_subscribe = []; client = record { gateways = []; topics = [] } }) e
        (λ a. refl)

  -- From the start of the program: if the identifiers of all configured gateways can be read, and the broker accepts one of the
  -- requests of each call, `Setup` of a client without subscriptions returns without an error, with those gateways as
  -- `alwaysSubscribe`; and after any calls of the empty registry the loop handles all their events. The client is then subscribed to a
  -- gateway for which an event was sent exactly if it is registered, whether or not it is in `alwaysSubscribe`, and to any other gateway
  -- exactly if it is configured; and the broker has the topics of these gateways.
  pub setup-gateway_subscribe_loop :
      (lw : Lorawan) (texts ids : List Bytes) (calls : List Call) (n : ℕ)
      → map lw.eui_of_text texts ≡ map some ids
      → (f : Forwarder) × (c : Client) × (setup command_topic answers fuel lw texts
            (record { gateways = []; topics = [] })
          ≡ some (ok f))
        × (f.always_subscribe ≡ ids)
        × (gateway_subscribe_loop command_topic answers fuel n (run [] calls).1 f.client ≡ some c)
        × IsSynced command_topic distinct c
        × ((a : Bytes)
            → is_some (lookup a c.gateways) ≡ (
                if is_named a (run [] calls).1
                then is_registered a (run [] calls).0
                else is_listed a ids))
  unfolding lookup
  setup-gateway_subscribe_loop lw texts ids calls n e =
      let (f, done, all, hf, gf) = setup-subscribed lw texts ids e in
      let (c, loop, hc, gc) = gateway_subscribe_loop-replay (run [] calls).1 n f.client hf in
      (
        f,
        c,
        done,
        all,
        loop,
        hc,
        λ a.
            gc a
            ∙ replay-is_named a (run [] calls).1 (is_some (lookup a f.client.gateways))
            ∙ ap
                (λ o.
                  if is_named a (run [] calls).1 then o else is_some (lookup a f.client.gateways))
                (sym (run-replay calls [] a))
            ∙ ap (λ o. if is_named a (run [] calls).1 then is_registered a (run [] calls).0 else o)
                (gf a ∙ replay-asks a ids false ∙ or-false (is_listed a ids)),
      )
