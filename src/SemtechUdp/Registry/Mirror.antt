-- ===== src/SemtechUdp/Registry/Mirror.antt =====
-- registry.go: the events of the registry tell who is in it.
use chirpstack_gateway_bridg.Prelude.{
  if◌then◌else◌, Bool-cases, is_some, Bytes, bytes_eq, nat_key, bytes_key, lookup, delete,
  lookup-insert, lookup-delete, ℕ, ◌≡◌, refl, sym, ap, ◌∙◌, inl, inr, Bool, false, List, [], ◌∷◌,
  ◌++◌, arith,
}
use chirpstack_gateway_bridg.Events.{Subscribe}
use chirpstack_gateway_bridg.Events.Replay.{replay, replay-append}
use chirpstack_gateway_bridg.SemtechUdp.Registry.{
  Gateway, Gateways, set, is_stale, sweep, keys, cleanup,
}

-- The calls that change the registry: a PULL_DATA of a gateway, and a round of the cleanup loop.
pub data Call : Type 0 where
  pulls : Bytes → Gateway → Call
  cleans : (Bytes → ℕ) → Call

unfoldable pub step : Gateways → Call → Gateways × List Subscribe
step c (pulls id g) = set c id g
step c (cleans clock) = cleanup clock c

-- All calls in turn, and all events that were sent.
unfoldable pub run : Gateways → List Call → Gateways × List Subscribe
unfolding step
run c [] = (c, [])
run c (x ∷ xs) = let (c', sent) = step c x in let (last, rest) = run c' xs in (last, sent ++ rest)

abbrev pub is_registered : Bytes → Gateways → Bool
is_registered a c = is_some (lookup a c)

set-replay :
    (c : Gateways) (id : Bytes) (g : Gateway) (a : Bytes)
    → is_registered a (set c id g).0 ≡ replay a (set c id g).1 (is_registered a c)
unfolding set replay
set-replay c id g a = ground (arith, lookup-insert id a g c)

is_registered-delete :
    (id a : Bytes) (c : Gateways)
    → is_registered a (delete id c) ≡ (if bytes_eq id a then false else is_registered a c)
is_registered-delete id a c = ground (arith, lookup-delete id a c)

sweep-replay :
    (clock : Bytes → ℕ) (ids : List Bytes) (c : Gateways) (a : Bytes)
    → is_registered a (sweep clock ids c).0 ≡ replay a (sweep clock ids c).1 (is_registered a c)
unfolding sweep replay
sweep-replay clock [] c a = refl
sweep-replay clock (id ∷ ids) c a = elim (Bool-cases (is_stale (clock id) (lookup id c))) [
  | inl gone ↦
      rw (gone, sweep)
        (sweep-replay clock ids (delete id c) a
          ∙ ap (replay a (sweep clock ids (delete id c)).1) (is_registered-delete id a c))
  | inr kept ↦ rw (kept, sweep) (sweep-replay clock ids c a)
]

step-replay :
    (c : Gateways) (x : Call) (a : Bytes)
    → is_registered a (step c x).0 ≡ replay a (step c x).1 (is_registered a c)
unfolding step cleanup
step-replay c (pulls id g) a = set-replay c id g a
step-replay c (cleans clock) a = sweep-replay clock (keys c) c a

-- After any calls, a gateway is in the registry exactly if the events that were sent ask for a
-- subscription of it.
pub run-replay :
    (xs : List Call) (c : Gateways) (a : Bytes)
    → is_registered a (run c xs).0 ≡ replay a (run c xs).1 (is_registered a c)
unfolding run
run-replay [] c a = unfold replay in refl
run-replay (x ∷ xs) c a =
    run-replay xs (step c x).0 a
    ∙ ap (replay a (run (step c x).0 xs).1) (step-replay c x a)
    ∙ sym (replay-append a (step c x).1 (run (step c x).0 xs).1 (is_registered a c))
