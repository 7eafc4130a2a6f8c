-- ===== src/Events/Replay.antt =====
-- internal/backend/events/events.go: what a sequence of events asks for.
use chirpstack_gateway_bridg.Prelude.{
  if◌then◌else◌, Bytes, bytes_eq, ◌≡◌, refl, Bool, List, [], ◌∷◌, ◌++◌,
}
use chirpstack_gateway_bridg.Events.{Subscribe}

-- Whether gateway `a` is to be subscribed after the events, if `o` says whether it was before.
unfoldable pub replay : Bytes → List Subscribe → Bool → Bool
replay a [] o = o
replay a (e ∷ es) o = replay a es (if bytes_eq e.gateway_id a then e.subscribe else o)

pub replay-append :
    (a : Bytes) (es fs : List Subscribe) (o : Bool)
    → replay a (es ++ fs) o ≡ replay a fs (replay a es o)
unfolding replay
replay-append a [] fs o = refl
replay-append a (e ∷ es) fs o = replay-append a es fs _
