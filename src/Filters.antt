-- ===== src/Filters.antt =====
-- internal/filters/filters.go: which LoRaWAN frames are passed on. The package variables are the record
-- `Filters`. Code of the package `lorawan` is the parameter `Lorawan`.
pub mod Accept
pub mod Configure
use chirpstack_gateway_bridg.Prelude.{
  leb, if◌then◌else◌, Bytes, bytes_eq, u_be, ℕ, Bool, true, false, ◌&&◌, Option, none, some, List,
  [], ◌∷◌,
}

-- `MType` of a frame, where all other types are handled alike.
pub data MType : Type 0 where
  join_request unconfirmed_data_up confirmed_data_up rejoin_request other_type : MType

-- The dynamic type of `MACPayload`, with the fields that are read.
pub data MacPayload : Type 0 where
  mac_payload : Bytes → MacPayload
  join_request_payload : Bytes → MacPayload
  rejoin_request02_payload : Bytes → MacPayload
  rejoin_request1_payload : Bytes → MacPayload
  other_payload : MacPayload

pub record PhyPayload : Type 0 where
  pub m_type : MType
  pub payload : MacPayload

pub record Lorawan : Type 0 where
  -- `PHYPayload.UnmarshalBinary`
  pub decode : Bytes → Option PhyPayload
  -- `DevAddr.IsNetID`
  pub is_net_id : Bytes → Bytes → Bool
  -- `NetID.UnmarshalText` and `EUI64.UnmarshalText`
  pub net_id_of_text : Bytes → Option Bytes
  pub eui_of_text : Bytes → Option Bytes

pub record Filters : Type 0 where
  pub net_ids : List Bytes
  pub join_euis : List (Bytes × Bytes)

pub is_empty {ℓ} : {A : Type ℓ} → List A → Bool
is_empty [] = true
is_empty (x ∷ xs) = false

-- Whether a loop that returns true at a hit finds one.
found {ℓ} : {A : Type ℓ} → (A → Bool) → List A → Bool
found test [] = false
found test (x ∷ xs) = let rest = found test xs in if test x then true else rest

match_net_id_filter : Filters → Bytes → Bool
unfolding is_empty found
match_net_id_filter f net_id =
    if is_empty f.net_ids then true else found (λ n. bytes_eq n net_id) f.net_ids

match_net_id_filter_for_dev_addr : Lorawan → Filters → Bytes → Bool
unfolding is_empty found
match_net_id_filter_for_dev_addr lw f dev_addr =
    if is_empty f.net_ids then true else found (λ n. lw.is_net_id dev_addr n) f.net_ids

-- The ends of a range belong to it.
in_range : ℕ → Bytes × Bytes → Bool
in_range n (lo, hi) = leb (u_be lo) n && leb n (u_be hi)

match_join_eui_filter : Filters → Bytes → Bool
unfolding is_empty found in_range
match_join_eui_filter f join_eui =
    if is_empty f.join_euis then true else found (in_range (u_be join_eui)) f.join_euis

filter_dev_addr : Lorawan → Filters → MacPayload → Bool
unfolding match_net_id_filter_for_dev_addr
filter_dev_addr lw f (mac_payload dev_addr) = match_net_id_filter_for_dev_addr lw f dev_addr
filter_dev_addr lw f p = true

filter_join_request : Filters → MacPayload → Bool
unfolding match_join_eui_filter
filter_join_request f (join_request_payload join_eui) = match_join_eui_filter f join_eui
filter_join_request f p = true

filter_rejoin_request : Filters → MacPayload → Bool
unfolding match_net_id_filter match_join_eui_filter
filter_rejoin_request f (rejoin_request02_payload net_id) = match_net_id_filter f net_id
filter_rejoin_request f (rejoin_request1_payload join_eui) = match_join_eui_filter f join_eui
filter_rejoin_request f p = true

-- The `switch` on the type of the frame.
match_phy : Lorawan → Filters → MType → MacPayload → Bool
unfolding filter_dev_addr filter_join_request filter_rejoin_request
match_phy lw f unconfirmed_data_up p = filter_dev_addr lw f p
match_phy lw f confirmed_data_up p = filter_dev_addr lw f p
match_phy lw f join_request p = filter_join_request f p
match_phy lw f rejoin_request p = filter_rejoin_request f p
match_phy lw f other_type p = true

match_decoded : Lorawan → Filters → Option PhyPayload → Bool
unfolding match_phy
match_decoded lw f none = true
match_decoded lw f (some phy) = match_phy lw f phy.m_type phy.payload

-- `MatchFilters`
unfoldable pub match_filters : Lorawan → Filters → Bytes → Bool
unfolding is_empty match_decoded
match_filters lw f bs =
    if is_empty f.net_ids && is_empty f.join_euis then true else match_decoded lw f (lw.decode bs)
