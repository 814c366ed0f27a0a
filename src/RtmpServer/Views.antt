-- ===== src/RtmpServer/Views.antt =====
-- A port seen through its stream keys and through the states of its connections.
use mmids_core.Common.{String, Option, none, some, nat_eq, string_eq, Map, or_default, lookup}
use mmids_core.RtmpServer.Types.{ConnectionId}
use mmids_core.RtmpServer.State.{
  StreamKeyConnections, ConnectionState, Connection, PortMapping, no_connections,
}

abbrev pub key_in : Map String StreamKeyConnections → String → StreamKeyConnections
key_in active key = or_default (lookup key active) no_connections

module _ {C : Type 0} where
  unfoldable pub key_of : PortMapping C → String → String → StreamKeyConnections
  key_of p app key = elim (lookup app p.rtmp_applications) [
    | none ↦ no_connections
    | some a ↦ key_in a.active_stream_keys key
  ]

abbrev pub state_in : Map ConnectionId Connection → ConnectionId → Option ConnectionState
state_in connections id = elim (lookup id connections) [ none ↦ none | some c ↦ some c.state ]
