-- ===== src/Tests/SessionTests.antt =====
-- The theorems on the connections of stations, for one or two connections of one gateway.
use mathlib.Core.Path.{subst}
use chirpstack_gateway_bridg.Prelude.{
  All, ok, err, Bytes, codes, nat_key, bytes_key, lookup, insert, ℕ, ◌≡◌, refl, sym, ◌⊎◌, true,
  false, none, some, List, [], ◌∷◌, arith,
}
use chirpstack_gateway_bridg.Platform.{DownlinkFrame}
use chirpstack_gateway_bridg.Events.{copy_eui}
use chirpstack_gateway_bridg.Events.Replay.{replay}
use chirpstack_gateway_bridg.SemtechUdp.Backend.{gateway_id_of}
use chirpstack_gateway_bridg.Basicstation.Gateways.{Gateway, gateway_does_not_exist, get, set}
use chirpstack_gateway_bridg.Basicstation.Gateways.Mirror.{is_registered}
use chirpstack_gateway_bridg.Basicstation.Sessions.{
  leave, leaves, Request, requested_gateway, registered, World, open_session, advance, opens,
  advances, Reach, start, next,
}
use chirpstack_gateway_bridg.Basicstation.Sessions.Registered.{Reach-AreOpen, Reach-AreMirrored}
use chirpstack_gateway_bridg.Basicstation.Sessions.Races.{race_unregisters}
use chirpstack_gateway_bridg.Basicstation.Sessions.Turns.{
  connects, InTurn, none_yet, then_turn, entry_of, InTurn-get,
}
use chirpstack_gateway_bridg.Basicstation.Structs.Hex.{hex_encode, hex_decode}
use chirpstack_gateway_bridg.Basicstation.Structs.Downlink.{downlink_frame_from_proto}
use chirpstack_gateway_bridg.Basicstation.Structs.RouterConfig.{eu868, RouterConfig}
use chirpstack_gateway_bridg.Basicstation.Backend.{
  StationBackend, RawPacket, text_message, station_tx_ack, StationEnv,
}
use chirpstack_gateway_bridg.Basicstation.Backend.Commands.{
  station_token, send_downlink, apply_configuration, raw_packet_forwarder_command,
}
use chirpstack_gateway_bridg.Basicstation.Backend.Messages.{
  downlink_transmitted_message, handle_message,
}
use chirpstack_gateway_bridg.Basicstation.Backend.Transmitted.{
  StationRequest, connects_or_leaves, serve_stations, transmitted-finds-downlink,
}
use chirpstack_gateway_bridg.Basicstation.Backend.Recipients.{writes, WasFound, commands-IsServing}
use chirpstack_gateway_bridg.Basicstation.Sessions.Later.{Later, now, later}
use chirpstack_gateway_bridg.Basicstation.RouterInfo.{RouterInfoEnv}
use chirpstack_gateway_bridg.Basicstation.RouterInfo.Accepted.{
  IsCertified, IsForeign, IsAdmitted, IsRefused, router_info_response-accepted,
}
use chirpstack_gateway_bridg.Basicstation.Structs.Eui64.{marshal_text, unmarshal_text}
use chirpstack_gateway_bridg.Basicstation.Structs.Eui64.Texts.{unmarshal_text-marshal_text}
use chirpstack_gateway_bridg.Tests.{constant_json, mac}
use chirpstack_gateway_bridg.Tests.StationTests.{station, answer, message}

abbrev request : Request
request = record { path = codes "/gateway/0102030405060708"; common_name = none }

requested : requested_gateway hex_decode request ≡ ok mac
unfolding requested_gateway hex_decode
requested = refl

-- The entry of the connection with number 1.
abbrev entry : Gateway
entry = record { conn = 1; config_version = [] }

abbrev first_world : World
first_world = record { gateways = []; sessions = []; sent = [] }

abbrev connected_world : World
connected_world = record {
  gateways = (mac, entry) ∷ [];
  sessions = (1, registered mac) ∷ [];
  sent = record { gateway_id = mac; subscribe = true } ∷ [];
}

connects_one : connected_world ≡ advance 1 (advance 1 (open_session 1 mac first_world))
unfolding advance open_session get set insert lookup
connects_one = refl

reached : Reach hex_decode (advance 1 (advance 1 (open_session 1 mac first_world)))
unfolding lookup
reached =
    next (next (next start (opens 1 request mac requested refl refl)) (advances 1 refl))
      (advances 1 refl)

reached_one : Reach hex_decode connected_world
reached_one = subst (Reach hex_decode) (sym connects_one) reached

Reach-AreOpen_example : lookup 1 connected_world.sessions ≡ some (registered mac)
unfolding lookup
Reach-AreOpen_example = Reach-AreOpen hex_decode connected_world mac entry reached_one refl

Reach-AreMirrored_example :
    is_registered mac connected_world.gateways ≡ replay mac connected_world.sent false
Reach-AreMirrored_example = Reach-AreMirrored hex_decode connected_world mac reached_one

race_unregisters_example :
    (w : World) × Reach hex_decode w
    × (lookup 2 w.sessions ≡ some (registered mac))
    × (get w.gateways mac ≡ err gateway_does_not_exist)
race_unregisters_example = race_unregisters hex_decode request mac 1 2 requested (λ e. omega arith)

in_turn : InTurn hex_decode connected_world
unfolding lookup
in_turn = then_turn none_yet (connects 1 request mac requested refl connects_one)

InTurn-get_example :
    (id : Bytes) × (registered mac ≡ registered id)
    × (get connected_world.gateways id ≡ ok (entry_of 1))
unfolding lookup
InTurn-get_example = InTurn-get hex_decode connected_world 1 (registered mac) in_turn refl

abbrev no_router : RouterConfig
no_router = record {
  message_type = [];
  net_id = [];
  join_eui = [];
  region = [];
  hw_spec = [];
  freq_range = (0, 0);
  drs = [];
  sx1301_conf = [];
}

abbrev station_env : StationEnv station
station_env = record {
  message_type = λ msg. some downlink_transmitted_message;
  is_version = λ msg. true;
  unmarshal_uplink = λ msg. none;
  unmarshal_join_request = λ msg. none;
  unmarshal_proprietary = λ msg. none;
  unmarshal_transmitted = λ msg. some 513;
  downlink_json = constant_json message;
  router_json = constant_json no_router;
  now = 0;
  uuid = none;
  random_token = none;
  remote_addr = λ c. [];
  write_ok = λ c bytes. true;
}

abbrev station_backend : StationBackend
station_backend = record { diid_map = []; gateways = connected_world.gateways }

abbrev numbered_answer : DownlinkFrame ℕ
numbered_answer = record answer { downlink_id = 7 ∷ [] }

abbrev connection_lost : List (StationRequest station)
connection_lost = connects_or_leaves [] ∷ []

transmitted_finds_downlink_example :
    (handle_message station_env
      (serve_stations (send_downlink station_env station_backend numbered_answer).1 connection_lost)
      none
      mac
      text_message
      []).2
    ≡ station_tx_ack (record { gateway_id = mac; token = 513; downlink_id = 7 ∷ []; error = [] })
      ∷ []
unfolding station_token downlink_frame_from_proto hex_encode
transmitted_finds_downlink_example =
    transmitted-finds-downlink station_env station_env station_backend numbered_answer 513 message
      connection_lost none mac [] 513 refl refl (λ bad. bad, tt) refl refl refl

abbrev raw_command : RawPacket
raw_command = record { gateway_id = mac; raw_id = []; payload = 1 ∷ [] }

-- The call of the connection ends between the lookup and the write.
abbrev left_world : World
left_world = leave 1 connected_world

left-Later : Later hex_decode connected_world left_world
left-Later = later now (leaves 1 refl) (λ c was gone. absurd (was gone))

commands-IsServing_example :
    All
      (WasFound connected_world left_world (copy_eui (gateway_id_of answer.tx_info)))
      (writes (send_downlink station_env station_backend answer).2)
    × All (WasFound connected_world left_world (copy_eui mac)) (
        writes
          (apply_configuration station_env station_backend
            (λ cs. cs)
            eu868
            none
            []
            []
            (0, 0)
            mac
            []).2)
    × All
        (WasFound connected_world left_world (copy_eui mac))
        (writes (raw_packet_forwarder_command station_env station_backend raw_command).2)
commands-IsServing_example =
    commands-IsServing station_env hex_decode connected_world left_world station_backend reached_one
      left-Later refl answer (λ cs. cs) eu868 none [] [] (0, 0) mac [] raw_command

abbrev router_info : RouterInfoEnv
router_info = record {
  scheme = codes "ws";
  host = codes "bridge:3001";
  unmarshal_eui = hex_decode;
  eui_string = hex_encode;
  response_json =
      constant_json (record { router = mac; muxs = mac; uri = []; response_error = [] });
  write_message_ok = λ bytes. true;
}

router_info_response_example :
    (IsCertified hex_decode mac (some (hex_encode mac))
      × IsAdmitted router_info mac (some (hex_encode mac)))
    ⊎ (IsForeign hex_decode mac (some (hex_encode mac))
        × IsRefused router_info mac (some (hex_encode mac)))
unfolding hex_encode hex_decode
router_info_response_example =
    router_info_response-accepted router_info mac (some (hex_encode mac))
      (
        refl,
        (
          refl,
          (
            refl,
            (
              refl,
              (
                refl,
                (
                  refl,
                  (
                    refl,
                    (refl, (refl, (refl, (refl, (refl, (refl, (refl, (refl, (refl, tt))))))))),
                  ),
                ),
              ),
            ),
          ),
        ),
      )
      refl

unmarshal_text_example : unmarshal_text (λ text. false) (λ text. none) (marshal_text mac) ≡ ok mac
unmarshal_text_example =
    unmarshal_text-marshal_text (λ text. false) (λ text. none) 1 2 3 4 5 6 7 8
      (
        omega arith,
        (
          omega arith,
          (
            omega arith,
            (omega arith, (omega arith, (omega arith, (omega arith, (omega arith, tt))))),
          ),
        ),
      )
      refl
