-- ===== src/Forwarder.antt =====
-- internal/forwarder/forwarder.go: how the subscriptions of gateways reach the integration.
pub mod Mirror
use chirpstack_gateway_bridg.Prelude.{
  Result, ok, err, Bytes, ℕ, suc, ◌+◌, Bool, true, Option, none, some, List, [], ◌∷◌, ◌++◌,
}
use chirpstack_gateway_bridg.Events.{Subscribe}
use chirpstack_gateway_bridg.Filters.{Lorawan}
use chirpstack_gateway_bridg.Mqtt.Subscription.{Client, set_gateway_subscription}

pub data SetupError : Type 0 where
  bad_gateway_id : SetupError

-- The package variable and the MQTT integration.
pub record Forwarder : Type 0 where
  pub always_subscribe : List Bytes
  pub client : Client

-- `answers n` are the broker's answers to the requests of the n-th call of `SetGatewaySubscription`;
-- `none` is a call that does not return within the fuel.
module _ (command_topic : Bytes → Bytes) (answers : ℕ → ℕ → Bool) (fuel : ℕ) where
  -- The loop of `Setup` over the gateways of the configuration, from call number n on.
  setup_gateways : Lorawan → ℕ → List Bytes → Forwarder → Option (Result SetupError Forwarder)
  setup_gateways lw n [] f = some (ok f)
  setup_gateways lw n (text ∷ texts) f = elim (lw.eui_of_text text) [
    | none ↦ some (err bad_gateway_id)
    | some id ↦ elim (set_gateway_subscription command_topic (answers n) fuel true id f.client) [
      | none ↦ none
      | some c ↦
          setup_gateways lw (suc n) texts
            (record { always_subscribe = f.always_subscribe ++ id ∷ []; client = c })
    ]
  ]

  -- `gatewaySubscribeLoop`, over the events of the backend's channel, from call number n on.
  unfoldable pub gateway_subscribe_loop : ℕ → List Subscribe → Client → Option Client
  gateway_subscribe_loop n [] c = some c
  gateway_subscribe_loop n (e ∷ es) c =
      elim (set_gateway_subscription command_topic (answers n) fuel e.subscribe e.gateway_id c) [
        | none ↦ none
        | some c' ↦ gateway_subscribe_loop (suc n) es c'
      ]

-- `Setup`, without the loops that it starts.
unfoldable pub setup :
    (Bytes → Bytes)
    → (ℕ → ℕ → Bool)
    → ℕ
    → Lorawan
    → List Bytes
    → Client
    → Option (Result SetupError Forwarder)
unfolding setup_gateways
setup command_topic answers fuel lw texts c =
    setup_gateways command_topic answers fuel lw 0 texts
      (record { always_subscribe = []; client = c })
