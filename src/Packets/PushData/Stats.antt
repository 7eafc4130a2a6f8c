-- ===== src/Packets/PushData/Stats.antt =====
-- `GetGatewayStats` of internal/backend/semtechudp/packets/push_data.go.
use chirpstack_gateway_bridg.Prelude.{
  if◌then◌else◌, Result, ok, ◌>>=◌, or_fail, Bytes, not, ◌&&◌, Option, none, some, [],
}
use chirpstack_gateway_bridg.Prelude.Int.{is_zero_ℤ}
use chirpstack_gateway_bridg.Platform.{Platform, GatewayStats, Location}
use chirpstack_gateway_bridg.Packets.PushData.{Stat, PushDataPacket}

pub data StatsError : Type 0 where
  bad_timestamp no_stats_id : StatsError

module _ (w : Platform) where
  -- A location with a coordinate or an altitude of zero is left out.
  location_of : Stat w → Option (Location w)
  location_of s =
      if not (w.is_zero s.lati) && not (w.is_zero s.long) && not (is_zero_ℤ s.alti)
      then some (record { latitude = s.lati; longitude = s.long; altitude = w.float_of_int s.alti })
      else none

  -- `GetGatewayStats`, for the identifier that `uuid.NewV4` draws. The source leaves `Ip` and
  -- `ConfigVersion` unset.
  stats_of : Bytes → Option (Stat w) → Option Bytes → Result StatsError (Option (GatewayStats w))
  unfolding location_of
  stats_of mac none drawn = ok none
  stats_of mac (some s) drawn = do
    ts ← or_fail bad_timestamp (w.timestamp_proto s.time)
    id ← or_fail no_stats_id drawn
    ok (
        some (record {
          gateway_id = mac;
          ip = [];
          time = ts;
          location = location_of s;
          config_version = [];
          rx_packets_received = s.rxnb;
          rx_packets_received_ok = s.rxok;
          tx_packets_received = s.dwnb;
          tx_packets_emitted = s.txnb;
          stats_id = id;
        }))

  unfoldable pub get_gateway_stats :
      PushDataPacket w → Option Bytes → Result StatsError (Option (GatewayStats w))
  unfolding stats_of
  get_gateway_stats p drawn = stats_of p.gateway_mac p.payload.stat drawn
