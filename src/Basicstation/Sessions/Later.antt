-- ===== src/Basicstation/Sessions/Later.antt =====
-- internal/backend/basicstation/backend.go: what becomes of a connection that was found in the registry, while the calls
-- of `handleGateway` go on.
use mathlib.Core.Path.{subst}
use chirpstack_gateway_bridg.Prelude.{
  Result-cases, Bytes, nat_key, bytes_key, lookup, insert, delete, lookup-insert, lookup-delete, ℕ,
  ◌≡◌, refl, sym, ◌∙◌, ◌≢◌, ◌⊎◌, inl, inr, Option, none, some, List, arith,
}
use chirpstack_gateway_bridg.Basicstation.Gateways.{get}
use chirpstack_gateway_bridg.Basicstation.Sessions.{
  Session, opened, checked, registered, World, open_session, check, register, advance_from, advance,
  leave_from, leave, Step, opens, advances, leaves,
}

-- What is reached from `v`, where a number stands for one connection: a new one does not get the number of one that
-- was open in `v` and has ended.
pub data Later (unmarshal : Bytes → Option Bytes) (v : World) : World → Type 0 where
  now : Later unmarshal v v
  later :
      {w x : World}
      → Later unmarshal v w
      → Step unmarshal w x
      → ((c : ℕ)
          → lookup c v.sessions ≢ none
          → lookup c w.sessions ≡ none
          → lookup c x.sessions ≡ none)
      → Later unmarshal v x

-- The call of the connection is in its loop for the gateway, or has ended.
abbrev pub IsServingOrEnded : World → Bytes → ℕ → Type 0
IsServingOrEnded w id c =
    (lookup c w.sessions ≡ some (registered id)) ⊎ (lookup c w.sessions ≡ none)

module _ (id : Bytes) (c : ℕ) where
  inserted-serving :
      (d : ℕ) (s : Session) (ss : List (ℕ × Session))
      → lookup d ss ≢ some (registered id)
      → lookup c ss ≡ some (registered id)
      → lookup c (insert d s ss) ≡ some (registered id)
  inserted-serving d s ss h e = ground (arith, lookup-insert d c s ss)

  deleted-serving :
      (d : ℕ) (ss : List (ℕ × Session))
      → lookup c ss ≡ some (registered id)
      → (lookup c (delete d ss) ≡ some (registered id)) ⊎ (lookup c (delete d ss) ≡ none)
  deleted-serving d ss e = ground (arith, lookup-delete d c ss)

  opened≢registered :
      (a : Bytes) → ◌≢◌ {A = Option Session} (some (opened a)) (some (registered id))
  opened≢registered a e = cc

  checked≢registered :
      (a : Bytes) → ◌≢◌ {A = Option Session} (some (checked a)) (some (registered id))
  checked≢registered a e = cc

  none≢registered : ◌≢◌ {A = Option Session} none (some (registered id))
  none≢registered e = cc

  advance_from-serving :
      (w : World) (d : ℕ) (o : Option Session)
      → lookup d w.sessions ≡ o
      → lookup c w.sessions ≡ some (registered id)
      → IsServingOrEnded (advance_from d w o) id c
  unfolding advance_from check register
  advance_from-serving w d none e h = inl h
  advance_from-serving w d (some (registered a)) e h = inl h
  advance_from-serving w d (some (checked a)) e h =
      inl (inserted-serving d (registered a) w.sessions (λ k. checked≢registered a (sym e ∙ k)) h)
  advance_from-serving w d (some (opened a)) e h = elim (Result-cases (get w.gateways a)) [
    | inl (g, f) ↦ rw f (deleted-serving d w.sessions h)
    | inr (r, f) ↦
        rw f
          (inl (inserted-serving d (checked a) w.sessions (λ k. opened≢registered a (sym e ∙ k)) h))
  ]

  leave_from-serving :
      (w : World) (d : ℕ) (o : Option Session)
      → lookup c w.sessions ≡ some (registered id)
      → IsServingOrEnded (leave_from d w o) id c
  unfolding leave_from
  leave_from-serving w d none h = inl h
  leave_from-serving w d (some (opened a)) h = inl h
  leave_from-serving w d (some (checked a)) h = inl h
  leave_from-serving w d (some (registered a)) h = deleted-serving d w.sessions h

  Step-serving :
      {unmarshal : Bytes → Option Bytes} {w x : World}
      → Step unmarshal w x
      → lookup c w.sessions ≡ some (registered id)
      → IsServingOrEnded x id c
  unfolding open_session advance leave
  Step-serving {w = w} (opens d r a p fresh e) h =
      subst (λ x. IsServingOrEnded x id c) (sym e)
        (inl (inserted-serving d (opened a) w.sessions (λ k. none≢registered (sym fresh ∙ k)) h))
  Step-serving (advances d e) h =
      subst (λ x. IsServingOrEnded x id c) (sym e) (advance_from-serving _ d _ refl h)
  Step-serving (leaves d e) h =
      subst (λ x. IsServingOrEnded x id c) (sym e) (leave_from-serving _ d _ h)

  -- A connection that is in its loop for a gateway stays in it until its call ends.
  pub Later-serving :
      {unmarshal : Bytes → Option Bytes} {v w : World}
      → Later unmarshal v w
      → lookup c v.sessions ≡ some (registered id)
      → IsServingOrEnded w id c
  Later-serving now h = inl h
  Later-serving (later l s unused) h = elim (Later-serving l h) [
    | inl serving ↦ Step-serving s serving
    | inr ended ↦ inr (unused c (λ k. none≢registered (sym k ∙ h)) ended)
  ]
