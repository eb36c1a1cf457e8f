-- ===== src/Cluster/Membership.antt =====
-- pkg/cluster/cluster.go: what the callbacks of memberlist do to the map of peers. The decoding of
-- messages is a parameter; `NodeMeta` and the queue of broadcasts only send.
use go_rego.Base.{Bool, true, false, ◌||◌, Option, none, some, List, [], ◌∷◌, ◌++◌, if◌then◌else◌}
use go_rego.Base.Text.{GoString, codes, str_eq}
use go_rego.Base.Dict.{Dict, lookup, insert, delete}
use go_rego.Cluster.Addresses.{split_host_port, join_host_port}
use go_rego.Cluster.Peers.{NodeState}

pub record Manager : Type 0 where
  pub local_name : GoString
  pub peers : Dict NodeState

-- A node of memberlist; `port` is printed.
pub record MemberNode : Type 0 where
  pub name : GoString
  pub addr : GoString
  pub port : GoString
  pub meta : GoString

unfoldable pub new_manager : GoString → Manager
new_manager node_id = record { local_name = node_id; peers = [] }

abbrev pub is_bind_host : GoString → Bool
is_bind_host host = str_eq host [] || (str_eq host (codes "0.0.0.0") || str_eq host (codes "::"))

-- The host is replaced if it is one to bind to.
unfoldable pub fix_address : GoString → NodeState → NodeState
fix_address replacement state = elim (split_host_port state.grpc_address) [
  | none ↦ state
  | some (host, port) ↦
      if is_bind_host host
      then record state { grpc_address = join_host_port replacement port }
      else state
]

-- With the address of the state that is there, if that has a host.
abbrev pub keep_address : NodeState → NodeState → NodeState
keep_address existing state = elim (split_host_port existing.grpc_address) [
  | none ↦ state
  | some (host, port) ↦ fix_address host state
]

abbrev pub put_peer : Manager → GoString → NodeState → Manager
put_peer m name state = record m { peers = insert name state m.peers }

module _ (unmarshal : GoString → Option NodeState) where
  abbrev pub receive_state : Manager → NodeState → Manager
  receive_state m state = elim (lookup state.name m.peers) [
    | none ↦ put_peer m state.name state
    | some existing ↦ put_peer m state.name (keep_address existing state)
  ]

  -- An empty message decodes to nothing here: `NotifyMsg` and `MergeRemoteState` return at once.
  unfoldable pub notify_msg : Manager → GoString → Manager
  notify_msg m [] = m
  notify_msg m (b ∷ bs) = elim (unmarshal (b ∷ bs)) [
    | none ↦ m
    | some state ↦ if str_eq state.name m.local_name then m else receive_state m state
  ]

  -- The state of a node whose metadata cannot be read.
  abbrev pub default_state : MemberNode → NodeState
  default_state node = record {
    name = node.name;
    grpc_address = node.addr ++ (b':' ∷ node.port);
    pending_tasks = 0;
    max_concurrency = 0;
  }

  abbrev pub joined_state : MemberNode → NodeState
  joined_state node = elim (unmarshal node.meta) [ none ↦ default_state node | some state ↦ state ]

  unfoldable pub notify_join : Manager → MemberNode → Manager
  notify_join m node =
      if str_eq node.name m.local_name
      then m
      else put_peer m node.name (fix_address node.addr (joined_state node))

  unfoldable pub notify_leave : Manager → MemberNode → Manager
  notify_leave m node =
      if str_eq node.name m.local_name then m else record m { peers = delete node.name m.peers }

  unfoldable pub notify_update : Manager → MemberNode → Manager
  notify_update m node = elim (str_eq node.name m.local_name) [
    | true ↦ m
    | false ↦ elim (unmarshal node.meta) [
      | none ↦ m
      | some state ↦ put_peer m node.name (fix_address node.addr state)
    ]
  ]

-- A peer by its name, for the forwarding of requests.
unfoldable pub get_peer_by_node_id : Manager → GoString → Option NodeState
get_peer_by_node_id m node_id = lookup node_id m.peers

-- `filterKnownPeers`: `members` are the addresses and ports of the members.
abbrev pub is_known : List (GoString × GoString) → GoString → Bool
is_known [] candidate = false
is_known ((addr, port) ∷ members) candidate =
    str_eq (join_host_port addr port) candidate || is_known members candidate

unfoldable pub filter_known_peers : List (GoString × GoString) → List GoString → List GoString
filter_known_peers members [] = []
filter_known_peers members (candidate ∷ candidates) =
    if is_known members candidate
    then filter_known_peers members candidates
    else candidate ∷ filter_known_peers members candidates

-- The end of `discoverDNS`: an address for each IP, with the port to bind to.
unfoldable pub dns_candidates : GoString → List GoString → List GoString
dns_candidates port [] = []
dns_candidates port (ip ∷ ips) = (ip ++ (b':' ∷ port)) ∷ dns_candidates port ips
