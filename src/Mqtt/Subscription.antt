-- ===== src/Mqtt/Subscription.antt =====
-- internal/integration/mqtt/backend.go: subscriptions to the command topics of the gateways. The
-- broker's answers to the requests of one call are a function of the attempt; a loop that retries until
-- the broker accepts takes fuel.
pub mod Synced
use chirpstack_gateway_bridg.Prelude.{
  if◌then◌else◌, is_some, ◌>>=◌, Bytes, nat_key, bytes_key, lookup, insert, delete, ℕ, zero, suc,
  Bool, true, false, not, Option, none, some, List, [], ◌∷◌,
}

abbrev pub Names : Type 0
Names = List (Bytes × Unit {0})

-- The fields of `Backend` that matter here, and the topics that the broker has for the connection.
pub record Client : Type 0 where
  pub gateways : Names
  pub topics : Names

abbrev bool_eq : Bool → Bool → Bool
bool_eq true b = b
bool_eq false b = not b

-- A loop that calls `attempt`, for the n-th time and so on, until it returns a client.
retry : (ℕ → Client → Option Client) → ℕ → ℕ → Client → Option Client
retry attempt zero n c = none
retry attempt (suc fuel) n c = elim (attempt n c) [
  | none ↦ retry attempt fuel (suc n) c
  | some c' ↦ some c'
]

-- The topic of a gateway is that of the command template, which is configured.
module _ (command_topic : Bytes → Bytes) where
  -- `subscribeGateway` and `unsubscribeGateway`. Refused requests include all other errors.
  subscribe_gateway : Bool → Bytes → Client → Option Client
  subscribe_gateway accepted id c =
      if accepted then some (record c { topics = insert (command_topic id) tt c.topics }) else none

  unsubscribe_gateway : Bool → Bytes → Client → Option Client
  unsubscribe_gateway accepted id c =
      if accepted then some (record c { topics = delete (command_topic id) c.topics }) else none

  abbrev add_gateway : Bytes → Option Client → Option Client
  add_gateway id none = none
  add_gateway id (some c) = some (record c { gateways = insert id tt c.gateways })

  abbrev remove_gateway : Bytes → Option Client → Option Client
  remove_gateway id none = none
  remove_gateway id (some c) = some (record c { gateways = delete id c.gateways })

  -- One direction of the loop in `SetGatewaySubscription`.
  change : (ℕ → Bool) → ℕ → Bool → Bytes → Client → Option Client
  unfolding retry subscribe_gateway unsubscribe_gateway
  change answers fuel true id c =
      add_gateway id (retry (λ n. subscribe_gateway (answers n) id) fuel 0 c)
  change answers fuel false id c =
      remove_gateway id (retry (λ n. unsubscribe_gateway (answers n) id) fuel 0 c)

  -- `SetGatewaySubscription`; `none` where the fuel runs out before the broker accepts.
  unfoldable pub set_gateway_subscription : (ℕ → Bool) → ℕ → Bool → Bytes → Client → Option Client
  unfolding change
  set_gateway_subscription answers fuel subscribe id c =
      if bool_eq (is_some (lookup id c.gateways)) subscribe
      then some c
      else change answers fuel subscribe id c

  -- The loop over the gateways in `onConnected`.
  resubscribe : (Bytes → ℕ → Bool) → ℕ → Names → Client → Option Client
  unfolding retry subscribe_gateway
  resubscribe answers fuel [] c = some c
  resubscribe answers fuel ((id, u) ∷ ids) c =
      elim (retry (λ n. subscribe_gateway (answers id n) id) fuel 0 c) [
        | none ↦ none
        | some c' ↦ resubscribe answers fuel ids c'
      ]

  -- `onConnected`, for a connection without subscriptions.
  unfoldable pub on_connected : (Bytes → ℕ → Bool) → ℕ → Client → Option Client
  unfolding resubscribe
  on_connected answers fuel c = resubscribe answers fuel c.gateways (record c { topics = [] })
