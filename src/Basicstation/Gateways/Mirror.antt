-- ===== src/Basicstation/Gateways/Mirror.antt =====
-- gateway.go: one call changes the entry of one gateway, and its event tells how.
use chirpstack_gateway_bridg.Prelude.{
  is_some, Bytes, nat_key, bytes_key, lookup, lookup-insert, lookup-delete, ◌≡◌, Bool, arith,
}
use chirpstack_gateway_bridg.Events.Replay.{replay}
use chirpstack_gateway_bridg.Basicstation.Gateways.{Gateway, Gateways, set, remove}

abbrev pub is_registered : Bytes → Gateways → Bool
is_registered a g = is_some (lookup a g)

pub set-replay :
    (g : Gateways) (id : Bytes) (gw : Gateway) (a : Bytes)
    → is_registered a (set g id gw).0 ≡ replay a (set g id gw).1 (is_registered a g)
unfolding set replay
set-replay g id gw a = ground (arith, lookup-insert id a gw g)

pub remove-replay :
    (g : Gateways) (id a : Bytes)
    → is_registered a (remove g id).0 ≡ replay a (remove g id).1 (is_registered a g)
unfolding remove replay
remove-replay g id a = ground (arith, lookup-delete id a g)
