-- ===== src/Basicstation/Sessions/Races.antt =====
-- `handleGateway` of internal/backend/basicstation/backend.go: the check for another connection of the gateway
-- and the registration are under two locks.
use chirpstack_gateway_bridg.Prelude.{
  ◌==◌, ok, err, Bytes, bytes_eq, nat_key, bytes_key, beq_refl, lookup, insert, delete,
  lookup-insert, ℕ, ◌≡◌, refl, ap, ◌∙◌, ◌≢◌, true, false, Option, none, some, [], ◌∷◌, arith,
}
use chirpstack_gateway_bridg.Basicstation.Gateways.{gateway_does_not_exist, get, set, remove}
use chirpstack_gateway_bridg.Basicstation.Sessions.{
  Request, requested_gateway, opened, registered, World, open_session, check, register,
  advance_from, advance, leave_from, leave, opens, advances, leaves, Reach, start, next,
}

-- Two connections that pass the check before either registers; the first then ends.
raced : ℕ → ℕ → Bytes → World
raced c d id = leave c (
    advance d (
      advance c (
        advance d (
          advance c (
            open_session d id
              (open_session c id (record { gateways = []; sessions = []; sent = [] })))))))

raced_computes :
    (c d : ℕ) (id : Bytes)
    → (c == c) ≡ true
    → (d == d) ≡ true
    → (c == d) ≡ false
    → (d == c) ≡ false
    → bytes_eq id id ≡ true
    → raced c d id ≡ record {
      gateways = [];
      sessions = (d, registered id) ∷ [];
      sent =
          record { gateway_id = id; subscribe = true }
          ∷ record { gateway_id = id; subscribe = true }
          ∷ record { gateway_id = id; subscribe = false }
          ∷ [];
    }
unfolding raced open_session advance leave advance_from leave_from check register get set remove
    lookup insert delete
raced_computes c d id cc_ dd cd dc ii = simp (cc_, dd, cd, dc, ii)

-- For any two connections of one gateway, there is an interleaving after which the second is in its loop, and yet the gateway is not
-- in the registry, so that nothing can be sent to it.
pub race_unregisters :
    (unmarshal : Bytes → Option Bytes) (r : Request) (id : Bytes) (c d : ℕ)
    → requested_gateway unmarshal r ≡ ok id
    → c ≢ d
    → (w : World) × Reach unmarshal w
      × (lookup d w.sessions ≡ some (registered id))
      × (get w.gateways id ≡ err gateway_does_not_exist)
unfolding raced open_session get lookup
race_unregisters unmarshal r id c d p h = (
  raced c d id,
  reached,
  ap (λ w. lookup d w.sessions) computed ∙ simp dd,
  ap (λ w. get w.gateways id) computed,
)
  where
    cc_ : (c == c) ≡ true
    cc_ = beq_refl c

    dd : (d == d) ≡ true
    dd = beq_refl d

    computed : raced c d id ≡ record {
      gateways = [];
      sessions = (d, registered id) ∷ [];
      sent =
          record { gateway_id = id; subscribe = true }
          ∷ record { gateway_id = id; subscribe = true }
          ∷ record { gateway_id = id; subscribe = false }
          ∷ [];
    }
    computed = raced_computes c d id cc_ dd (ground arith) (ground arith) (beq_refl id)

    fresh :
        lookup d (open_session c id (record { gateways = []; sessions = []; sent = [] })).sessions
        ≡ none
    fresh = lookup-insert c d (opened id) [] ∙ ground arith

    reached : Reach unmarshal (raced c d id)
    reached =
        next
          (next
            (next
              (next
                (next (next (next start (opens c r id p refl refl)) (opens d r id p fresh refl))
                  (advances c refl))
                (advances d refl))
              (advances c refl))
            (advances d refl))
          (leaves c refl)
