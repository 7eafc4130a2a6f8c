-- ===== src/Mqtt/Subscription/Synced.antt =====
-- internal/integration/mqtt/backend.go: the broker has the topics of the subscribed gateways.
use chirpstack_gateway_bridg.Prelude.{
  if◌then◌else◌, Bool-cases, is_some, Bytes, bytes_eq, bytes_eq_iff, nat_key, bytes_key, lookup,
  insert, delete, lookup-insert, lookup-delete, ℕ, zero, suc, ◌+◌, ◌≤◌, ◌<◌, ◌≡◌, refl, sym, ap,
  ◌∙◌, inl, inr, Bool, true, false, Option, none, some, [], ◌∷◌, arith,
}
use chirpstack_gateway_bridg.Mqtt.Subscription.{
  Names, Client, bool_eq, retry, subscribe_gateway, unsubscribe_gateway, change,
  set_gateway_subscription, resubscribe, on_connected,
}

-- The broker accepts one of the first `fuel` requests.
abbrev pub AcceptsWithin : (ℕ → Bool) → ℕ → Type 0
AcceptsWithin answers fuel = (k : ℕ) × (k < fuel) × (answers k ≡ true)

-- If an attempt succeeds with `done c` whenever it is accepted, the loop returns that.
retry_succeeds :
    (answers : ℕ → Bool) (attempt : ℕ → Client → Option Client) (c done : Client)
    → ((n : ℕ) → attempt n c ≡ (if answers n then some done else none))
    → (fuel n k : ℕ) → n ≤ k
    → k < n + fuel
    → answers k ≡ true
    → retry attempt fuel n c ≡ some done
unfolding retry
retry_succeeds answers attempt c done h zero n k le lt e = absurd (omega arith)
retry_succeeds answers attempt c done h (suc fuel) n k le lt e = elim (Bool-cases (answers n)) [
  | inl hit ↦ ground (arith, h n)
  | inr miss ↦ ground (arith, h n, retry_succeeds answers attempt c done h fuel (suc n) k, e)
]

-- The presence of a gateway that is as asked.
as_asked :
    (o : Option (Unit {0})) (subscribe : Bool)
    → bool_eq (is_some o) subscribe ≡ true
    → o ≡ (if subscribe then some tt else none)
as_asked none true e = cc
as_asked none false e = refl
as_asked (some tt) true e = refl
as_asked (some tt) false e = cc

some_or_none : (o : Option (Unit {0})) → (if is_some o then some tt else none) ≡ o
some_or_none none = refl
some_or_none (some tt) = refl

module _ (command_topic : Bytes → Bytes)
    (distinct : (a b : Bytes) → command_topic a ≡ command_topic b → a ≡ b) where
  -- The broker has the topic of a gateway exactly if the gateway is subscribed.
  abbrev pub IsSynced : Client → Type 0
  IsSynced c = (a : Bytes) → lookup (command_topic a) c.topics ≡ lookup a c.gateways

  topic_eq : (a b : Bytes) → bytes_eq (command_topic a) (command_topic b) ≡ bytes_eq a b
  topic_eq a b =
      ground
        (arith, bytes_eq_iff a b, bytes_eq_iff (command_topic a) (command_topic b), distinct a b)

  -- What a call leaves of the client, when the broker accepts.
  abbrev changed : Bool → Bytes → Client → Client
  changed true id c = record {
    gateways = insert id tt c.gateways;
    topics = insert (command_topic id) tt c.topics;
  }
  changed false id c = record {
    gateways = delete id c.gateways;
    topics = delete (command_topic id) c.topics;
  }

  gateways-changed :
      (subscribe : Bool) (id : Bytes) (c : Client) (a : Bytes)
      → lookup a (changed subscribe id c).gateways
        ≡ (if bytes_eq id a then (if subscribe then some tt else none) else lookup a c.gateways)
  gateways-changed true id c a = lookup-insert id a tt c.gateways
  gateways-changed false id c a = lookup-delete id a c.gateways

  change-changed :
      (answers : ℕ → Bool) (fuel : ℕ) (subscribe : Bool) (id : Bytes) (c : Client)
      → AcceptsWithin answers fuel
      → change command_topic answers fuel subscribe id c ≡ some (changed subscribe id c)
  unfolding change subscribe_gateway unsubscribe_gateway
  change-changed answers fuel true id c (k, lt, e) = rw (
      retry_succeeds answers (λ n. subscribe_gateway command_topic (answers n) id) c
        (record c { topics = insert (command_topic id) tt c.topics }) (λ n. refl) fuel 0 k
        (omega arith) (omega arith) e)
  change-changed answers fuel false id c (k, lt, e) = rw (
      retry_succeeds answers (λ n. unsubscribe_gateway command_topic (answers n) id) c
        (record c { topics = delete (command_topic id) c.topics }) (λ n. refl) fuel 0 k
        (omega arith) (omega arith) e)

  changed-IsSynced :
      (subscribe : Bool) (id : Bytes) (c : Client) → IsSynced c → IsSynced (changed subscribe id c)
  changed-IsSynced true id c h a = ground (
    arith,
    lookup-insert (command_topic id) (command_topic a) tt c.topics,
    lookup-insert id a tt c.gateways,
    topic_eq id a,
    h a,
  )
  changed-IsSynced false id c h a = ground (
    arith,
    lookup-delete (command_topic id) (command_topic a) c.topics,
    lookup-delete id a c.gateways,
    topic_eq id a,
    h a,
  )

  -- If the broker accepts one of the requests, `SetGatewaySubscription` returns; the gateway is then
  -- subscribed or not as asked, all others are as before, and the broker still has exactly the
  -- topics of the subscribed gateways.
  pub set_gateway_subscription_lem :
      (answers : ℕ → Bool) (fuel : ℕ) (subscribe : Bool) (id : Bytes) (c : Client)
      → AcceptsWithin answers fuel
      → IsSynced c
      → (c' : Client) × (set_gateway_subscription command_topic answers fuel subscribe id c
          ≡ some c')
        × IsSynced c'
        × ((a : Bytes)
            → lookup a c'.gateways ≡ (
                if bytes_eq id a
                then (if subscribe then some tt else none)
                else lookup a c.gateways))
  unfolding set_gateway_subscription
  set_gateway_subscription_lem answers fuel subscribe id c acc h =
      elim (Bool-cases (bool_eq (is_some (lookup id c.gateways)) subscribe)) [
        | inl same ↦ (
          c,
          rw same,
          h,
          λ a. ground (arith, bytes_eq_iff id a, as_asked (lookup id c.gateways) subscribe same),
        )
        | inr other ↦ (
          changed subscribe id c,
          rw other (change-changed answers fuel subscribe id c acc),
          changed-IsSynced subscribe id c h,
          λ a. gateways-changed subscribe id c a,
        )
      ]

  -- Over a list of gateways the loop gives a client with their topics besides those that it had.
  resubscribe-topics :
      (answers : Bytes → ℕ → Bool) (fuel : ℕ) (ids : Names) (c : Client)
      → ((id : Bytes) → AcceptsWithin (answers id) fuel)
      → (c' : Client) × (resubscribe command_topic answers fuel ids c ≡ some c')
        × (c'.gateways ≡ c.gateways)
        × ((a : Bytes)
            → lookup (command_topic a) c'.topics
              ≡ (if is_some (lookup a ids) then some tt else lookup (command_topic a) c.topics))
  unfolding resubscribe lookup
  resubscribe-topics answers fuel [] c acc = (c, refl, refl, λ a. refl)
  resubscribe-topics answers fuel ((id, u) ∷ ids) c acc =
      let (k, lt, e) = acc id in
      let next : Client = record c { topics = insert (command_topic id) tt c.topics } in
      let step =
        retry_succeeds (answers id) (λ n. subscribe_gateway command_topic (answers id n) id) c next
          (λ n. unfold subscribe_gateway in refl) fuel 0 k (omega arith) (omega arith) e in
      let (c', done, same, topics) = resubscribe-topics answers fuel ids next acc in
      (
        c',
        rw (step, resubscribe) done,
        same,
        λ a. ground (
          arith,
          topics a,
          lookup-insert (command_topic id) (command_topic a) tt c.topics,
          topic_eq id a,
        ),
      )

  -- After a re-connect, if the broker accepts one request for each gateway, `onConnected` returns, the
  -- gateways are as before, and the broker has exactly their topics again.
  pub on_connected-IsSynced :
      (answers : Bytes → ℕ → Bool) (fuel : ℕ) (c : Client)
      → ((id : Bytes) → AcceptsWithin (answers id) fuel)
      → (c' : Client) × (on_connected command_topic answers fuel c ≡ some c')
        × (c'.gateways ≡ c.gateways)
        × IsSynced c'
  unfolding on_connected lookup
  on_connected-IsSynced answers fuel c acc =
      let (c', done, same, topics) =
        resubscribe-topics answers fuel c.gateways (record c { topics = [] }) acc in
      (
        c',
        done,
        same,
        λ a. topics a ∙ some_or_none (lookup a c.gateways) ∙ ap (lookup a) (sym same),
      )
