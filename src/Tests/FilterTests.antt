-- ===== src/Tests/FilterTests.antt =====
-- The theorems on filters, at a frame and a configuration.
use chirpstack_gateway_bridg.Prelude.{◌≡◌, ◌↔◌, false, some, [], ◌∷◌}
use chirpstack_gateway_bridg.Filters.{PhyPayload, Filters, match_filters}
use chirpstack_gateway_bridg.Filters.Accept.{Dropped, match_filters_drops_iff}
use chirpstack_gateway_bridg.Filters.Configure.{FilterConf}
use chirpstack_gateway_bridg.Tests.{lorawan, frame_bytes}

abbrev foreign : Filters
foreign = record { net_ids = (1 ∷ []) ∷ []; join_euis = [] }

match_filters_drops_example : (match_filters lorawan foreign frame_bytes ≡ false) ↔ (
    (phy : PhyPayload) × (lorawan.decode frame_bytes ≡ some phy)
    × Dropped lorawan foreign phy.m_type phy.payload)
match_filters_drops_example = match_filters_drops_iff lorawan foreign frame_bytes

abbrev conf : FilterConf
conf = record { net_ids = (1 ∷ []) ∷ (2 ∷ []) ∷ []; join_euis = (3 ∷ [], 4 ∷ []) ∷ [] }

abbrev configured : Filters
configured = record { net_ids = (1 ∷ []) ∷ (2 ∷ []) ∷ []; join_euis = (3 ∷ [], 4 ∷ []) ∷ [] }
