-- ===== src/Lib.antt =====
-- A model of ChirpStack Gateway Bridge, which connects LoRa gateways to an MQTT broker, and what is
-- proved of it. A gateway speaks the UDP protocol of the Semtech packet-forwarder: it polls with
-- PULL_DATA, reports uplinks and its state with PUSH_DATA, gets downlinks as PULL_RESP, and answers these
-- with TX_ACK. The backend decodes the packets, keeps a registry of the gateways that poll, and passes
-- on what it gets as protobuf messages on channels. Two other backends do the same for the Basic Station,
-- over a websocket for each gateway, and for the Concentratord, over two sockets. The forwarder moves
-- these messages between the backend and the integration, which subscribes at the broker to the
-- command topic of each gateway.
--
-- The parts and their files:
-- - Prelude: tests, lists, results, bytes, Go's integers and maps, over the library.
-- - Platform: what comes from outside the repository, as parameters: floating-point numbers, times,
--   `encoding/json` at a type, and the protobuf messages.
-- - Decimal: decimal numbers, which several files of the source print and read.
-- - Packets: internal/backend/semtechudp/packets. Packets.antt has what is common (`GetPacketType`),
--   Packets/Polls the packets without payload, Packets/TxAck, Packets/PullResp and Packets/PushData
--   the others, each with `marshal_...` for `MarshalBinary` and `unmarshal_...` for
--   `UnmarshalBinary`; Packets/DataRate has `DatR` and the LoRa data-rate identifier.
--   PullResp/Convert is `GetPullRespPacket`, PushData/Stats is `GetGatewayStats`, PushData/Frames is
--   `GetUplinkFrames`.
-- - Events: internal/backend/events. A channel of events is the list of what was sent.
-- - SemtechUdp/Registry: internal/backend/semtechudp/registry.go, with `get`, `set` and `cleanup`.
-- - SemtechUdp/Backend: internal/backend/semtechudp/backend.go, the handlers of packets
--   (`handle_packet` for `handlePacket`, and one for each type) and `SendDownlinkFrame`. Each returns
--   its error, the new state, and what it has sent on the channels.
-- - SemtechUdp/PfConfig: internal/backend/semtechudp/pf_config.go, `getGatewayConfig` and, in
--   PfConfig/Merge, `mergeConfig`. SemtechUdp/Configuration is `ApplyConfiguration` of backend.go,
--   which uses them.
-- - Filters: internal/filters/filters.go, `MatchFilters` and, in Filters/Configure, `Setup`.
-- - Mqtt/Subscription: the subscriptions of internal/integration/mqtt/backend.go. Mqtt/Dispatch is
--   `handleCommand` with its handlers, and `PublishEvent`.
-- - Forwarder: internal/forwarder/forwarder.go, `Setup` and `gatewaySubscribeLoop`.
-- - Commands/CommandLine: `ParseCommandLine` of internal/commands/commands.go; Commands/Execution is
--   `Setup`, `executeCommand` and `execute`.
-- - Metadata: internal/metadata/metadata.go, `runCommands` and `runCommand`.
-- - Sx1301/Radios: internal/config/sx1301v1/sx1301v1.go, `GetRadioFrequencies` and
--   `GetRadioForChannel`; `sort.Sort` is an argument. Sx1301/Heard has the frequencies that the
--   channels of a configuration are to be heard on.
-- - Basicstation/Structs: internal/backend/basicstation/structs, the messages of the Basic Station
--   packet-forwarder that become uplinks (`...ToProto`) and the one that a downlink becomes
--   (`DownlinkFrameFromProto`); Hex is `encoding/hex`, which they use; RouterConfig is
--   `GetRouterConfigOld` and, in RouterConfig/Concentrator, `GetRouterConfig`; Eui64 is the text of
--   an identifier.
-- - Basicstation/Gateways: internal/backend/basicstation/gateway.go, the registry of connections.
-- - Basicstation/Sessions: `handleGateway` of internal/backend/basicstation/backend.go, as a step
--   relation over the calls of all connections; a step is what happens under one lock. Commands look up
--   a connection under that lock and write to it afterwards: Sessions/Later is what may happen in
--   between.
-- - Basicstation/RouterInfo: `handleRouterInfo` of the same file.
-- - Basicstation/Backend: the other functions of backend.go; Backend/Messages has the handlers of the
--   messages (`handle_message` is a round of the loop of `handleGateway`), Backend/Commands what is
--   sent to a station.
-- - Concentratord: internal/backend/concentratord/concentratord.go, the commands and the event loop.
-- - Tests: the theorems at concrete values.
--
-- Bytes are natural numbers; where a bound of 256 is needed it is a hypothesis. Conversions to an integer
-- of w bits are written out as a residue modulo 2 ^ w. The methods that hold a mutex are one step each.
-- A loop that repeats a request until the broker accepts it takes fuel, one for each request;
-- theorems on it ask that one of the requests within the fuel is accepted, and then it returns. Twenty
-- digits are enough to print a 64-bit number. Random identifiers and the clock are arguments.
--
-- Not modelled: the loops on sockets and channels, log lines and metrics, the MQTT client and its
-- authentication, the configuration file and the start of the program, since they
-- are calls of other code.
pub mod Prelude
pub mod Decimal
pub mod Platform
pub mod Events
pub mod Mqtt
pub mod SemtechUdp
pub mod Filters
pub mod Forwarder
pub mod Packets
pub mod Commands
pub mod Metadata
pub mod Sx1301
pub mod Basicstation
pub mod Concentratord
pub mod Tests
