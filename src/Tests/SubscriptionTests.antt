-- ===== src/Tests/SubscriptionTests.antt =====
-- The theorems on the registry and on subscriptions, for a broker that refuses the first request of each call.
use chirpstack_gateway_bridg.Prelude.{
  ◌==◌, if◌then◌else◌, is_some, ok, Bytes, bytes_eq, nat_key, bytes_key, lookup, ℕ, ◌*◌, ◌^◌, ◌≡◌,
  refl, Bool, true, none, some, List, [], ◌∷◌, arith,
}
use chirpstack_gateway_bridg.Events.Replay.{replay}
use chirpstack_gateway_bridg.Mqtt.Subscription.{Client, set_gateway_subscription, on_connected}
use chirpstack_gateway_bridg.Mqtt.Subscription.Synced.{
  AcceptsWithin, IsSynced, set_gateway_subscription_lem, on_connected-IsSynced,
}
use chirpstack_gateway_bridg.SemtechUdp.Registry.{Gateway}
use chirpstack_gateway_bridg.SemtechUdp.Registry.Mirror.{
  Call, pulls, cleans, run, is_registered, run-replay,
}
use chirpstack_gateway_bridg.Forwarder.{Forwarder, setup, gateway_subscribe_loop}
use chirpstack_gateway_bridg.Forwarder.Mirror.{
  gateway_subscribe_loop-run, is_named, is_listed, setup-gateway_subscribe_loop,
}
use chirpstack_gateway_bridg.Tests.{mac, lorawan}

abbrev topic : Bytes → Bytes
topic id = b'/' ∷ id

topic-injective : (a b : Bytes) → topic a ≡ topic b → a ≡ b
topic-injective a b e = cc

abbrev answers : ℕ → Bool
answers n = n == 1

answers-AcceptsWithin : AcceptsWithin answers 2
answers-AcceptsWithin = (1, omega arith, refl)

abbrev fresh : Client
fresh = record { gateways = []; topics = [] }

abbrev joined : Client
joined = record { gateways = (mac, tt) ∷ []; topics = (topic mac, tt) ∷ [] }

fresh-IsSynced : IsSynced topic topic-injective fresh
unfolding lookup
fresh-IsSynced a = refl

set_gateway_subscription_example :
    (c' : Client) × (set_gateway_subscription topic answers 2 true mac fresh ≡ some c')
    × IsSynced topic topic-injective c'
    × ((a : Bytes)
        → lookup a c'.gateways
          ≡ (if bytes_eq mac a then (if true then some tt else none) else lookup a fresh.gateways))
set_gateway_subscription_example =
    set_gateway_subscription_lem topic topic-injective answers 2 true mac fresh
      answers-AcceptsWithin fresh-IsSynced

on_connected_example :
    (c' : Client) × (on_connected topic (λ id. answers) 2 joined ≡ some c')
    × (c'.gateways ≡ joined.gateways)
    × IsSynced topic topic-injective c'
on_connected_example =
    on_connected-IsSynced topic topic-injective (λ id. answers) 2 joined
      (λ id. answers-AcceptsWithin)

abbrev entry : Gateway
entry = record { addr = record { ip = 10 ∷ []; port = 1700 }; last_seen = 5; protocol_version = 2 }

-- A PULL_DATA, and a cleanup after two minutes.
abbrev calls : List Call
calls = pulls mac entry ∷ cleans (λ id. 120 * 10 ^ 9) ∷ []

run-replay_example :
    is_registered mac (run [] calls).0 ≡ replay mac (run [] calls).1 (is_registered mac [])
run-replay_example = run-replay calls [] mac

gateway_subscribe_loop_example :
    (c' : Client) × (gateway_subscribe_loop topic (λ n. answers) 2 0 (run [] calls).1 fresh
      ≡ some c')
    × IsSynced topic topic-injective c'
    × ((a : Bytes) → is_some (lookup a c'.gateways) ≡ is_registered a (run [] calls).0)
unfolding lookup
gateway_subscribe_loop_example =
    gateway_subscribe_loop-run topic topic-injective (λ n. answers) 2 (λ n. answers-AcceptsWithin)
      calls [] 0 fresh fresh-IsSynced (λ a. refl)

-- The gateway is configured, polls once, and is too old at the next cleanup; another one only is configured.
abbrev polls_once : List Call
polls_once = pulls mac entry ∷ cleans (λ id. 120 * 10 ^ 9) ∷ []

setup-gateway_subscribe_loop_example :
    (f : Forwarder) × (c : Client) × (setup topic
        (λ n. answers)
        2
        lorawan
        (mac ∷ (9 ∷ []) ∷ [])
        (record { gateways = []; topics = [] })
      ≡ some (ok f))
    × (f.always_subscribe ≡ mac ∷ (9 ∷ []) ∷ [])
    × (gateway_subscribe_loop topic (λ n. answers) 2 0 (run [] polls_once).1 f.client ≡ some c)
    × IsSynced topic topic-injective c
    × ((a : Bytes)
        → is_some (lookup a c.gateways) ≡ (
            if is_named a (run [] polls_once).1
            then is_registered a (run [] polls_once).0
            else is_listed a (mac ∷ (9 ∷ []) ∷ [])))
setup-gateway_subscribe_loop_example =
    setup-gateway_subscribe_loop topic topic-injective (λ n. answers) 2 (λ n. answers-AcceptsWithin)
      lorawan (mac ∷ (9 ∷ []) ∷ []) (mac ∷ (9 ∷ []) ∷ []) polls_once 0 refl
