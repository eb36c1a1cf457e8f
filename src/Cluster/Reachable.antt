-- ===== src/Cluster/Reachable.antt =====
-- pkg/cluster/cluster.go: the peers after any sequence of callbacks.
use go_rego.Base.{
  ℕ, ◌≡◌, ◌≢◌, refl, ap, sym, subst, ◌∙◌, true, false, Option, none, some, List, [], ◌∷◌, arith,
  Bool-cases, Option-cases, inl, inr,
}
use go_rego.Base.Lists.{All}
use go_rego.Base.Text.{GoString, str_eq, str_eq_iff}
use go_rego.Base.Dict.{lookup, delete, lookup-insert, lookup-delete}
use go_rego.Cluster.Addresses.{split_host_port}
use go_rego.Cluster.Peers.{NodeState, Floats, select_best_peer}
use go_rego.Cluster.Selection.{Among, select_best_peer-Among}
use go_rego.Cluster.Membership.{
  Manager, MemberNode, new_manager, fix_address, keep_address, put_peer, receive_state, notify_msg,
  joined_state, notify_join, notify_leave, notify_update, get_peer_by_node_id,
}

pub data Callback : Type 0 where
  message : GoString → Callback
  join : MemberNode → Callback
  leave : MemberNode → Callback
  update : MemberNode → Callback

-- Every peer is kept under its own name, which is not the local node's.
record IsApart (id : GoString) (m : Manager) : Type 0 where
  local : m.local_name ≡ id
  named : (k : GoString) (q : NodeState) → lookup k m.peers ≡ some q → (q.name ≡ k) × (k ≢ id)

put_peer-IsApart :
    (id : GoString) (m : Manager) (name : GoString) (state : NodeState)
    → str_eq name m.local_name ≡ false
    → state.name ≡ name
    → IsApart id m
    → IsApart id (put_peer m name state)
put_peer-IsApart id m name state other own apart = record {
  local = apart.local;
  named = λ k q e. elim (Bool-cases (str_eq name k)) [
    | inl same ↦
        let at : name ≡ k = (str_eq_iff name k).0 same in
        let here : ◌≡◌ {A = Option NodeState} (some state) (some q) =
          sym (rw (lookup-insert name k state m.peers, same) refl) ∙ e in
        let it : state ≡ q = cc in (ap (λ r. r.name) (sym it) ∙ own ∙ at, λ local. ne (at ∙ local))
    | inr differs ↦
        apart.named k q (sym (rw (lookup-insert name k state m.peers, differs) refl) ∙ e)
  ];
}
  where
    ne : name ≢ id
    ne e =
        let same : str_eq name m.local_name ≡ true =
          (str_eq_iff name m.local_name).1 (e ∙ sym apart.local) in
        cc

fix_address-name : (r : GoString) (state : NodeState) → (fix_address r state).name ≡ state.name
unfolding fix_address
fix_address-name r state = ground arith

keep_address-name : (existing state : NodeState) → (keep_address existing state).name ≡ state.name
keep_address-name existing state = elim (Option-cases (split_host_port existing.grpc_address)) [
  | inl e ↦ rw (e, keep_address) refl
  | inr ((host, port), e) ↦ rw (e, keep_address) (fix_address-name host state)
]

module _ (unmarshal : GoString → Option NodeState) where
  abbrev pub step : Manager → Callback → Manager
  step m (message bytes) = notify_msg unmarshal m bytes
  step m (join node) = notify_join unmarshal m node
  step m (leave node) = notify_leave unmarshal m node
  step m (update node) = notify_update unmarshal m node

  abbrev pub run : Manager → List Callback → Manager
  run m [] = m
  run m (c ∷ cs) = run (step m c) cs

  -- The metadata of a node, where it can be read, is that of the node.
  abbrev pub NamesItself : Callback → Type 0
  NamesItself (join node) =
      (state : NodeState) → unmarshal node.meta ≡ some state → state.name ≡ node.name
  NamesItself (update node) =
      (state : NodeState) → unmarshal node.meta ≡ some state → state.name ≡ node.name
  NamesItself _ = Unit

  receive_state-IsApart :
      (id : GoString) (m : Manager) (state : NodeState)
      → str_eq state.name m.local_name ≡ false
      → IsApart id m
      → IsApart id (receive_state unmarshal m state)
  receive_state-IsApart id m state other apart = elim (Option-cases (lookup state.name m.peers)) [
    | inl e ↦ rw (e, receive_state) (put_peer-IsApart id m state.name state other refl apart)
    | inr (existing, e) ↦
        rw (e, receive_state)
          (put_peer-IsApart id m state.name (keep_address existing state) other
            (keep_address-name existing state) apart)
  ]

  joined_state-name :
      (node : MemberNode)
      → NamesItself (join node)
      → (fix_address node.addr (joined_state unmarshal node)).name ≡ node.name
  joined_state-name node own =
      fix_address-name node.addr (joined_state unmarshal node)
      ∙ (elim (Option-cases (unmarshal node.meta)) [
        | inl e ↦ rw (e, joined_state) refl
        | inr (state, e) ↦ rw (e, joined_state) (own state e)
      ])

  step-IsApart :
      (id : GoString) (m : Manager) (c : Callback)
      → NamesItself c
      → IsApart id m
      → IsApart id (step m c)
  unfolding notify_msg notify_join notify_leave notify_update
  step-IsApart id m (message []) own apart = apart
  step-IsApart id m (message (b ∷ bs)) own apart = elim (Option-cases (unmarshal (b ∷ bs))) [
    | inl e ↦ rw (e, notify_msg) apart
    | inr (state, e) ↦ elim (Bool-cases (str_eq state.name m.local_name)) [
      | inl self ↦ rw (e, notify_msg, self) apart
      | inr other ↦ rw (e, notify_msg, other) (receive_state-IsApart id m state other apart)
    ]
  ]
  step-IsApart id m (join node) own apart = elim (Bool-cases (str_eq node.name m.local_name)) [
    | inl self ↦ rw (self, notify_join) apart
    | inr other ↦
        rw (other, notify_join)
          (put_peer-IsApart id m node.name (fix_address node.addr (joined_state unmarshal node))
            other (joined_state-name node own) apart)
  ]
  step-IsApart id m (leave node) own apart = elim (Bool-cases (str_eq node.name m.local_name)) [
    | inl self ↦ rw (self, notify_leave) apart
    | inr other ↦
        rw (other, notify_leave)
          (record {
            local = apart.local;
            named = λ k q e. elim (Bool-cases (str_eq node.name k)) [
              | inl gone ↦
                  absurd (nothing q (sym (rw (lookup-delete node.name k m.peers, gone) refl) ∙ e))
              | inr kept ↦
                  apart.named k q (sym (rw (lookup-delete node.name k m.peers, kept) refl) ∙ e)
            ];
          })
  ]
    where
      nothing : (q : NodeState) → ◌≢◌ {A = Option NodeState} none (some q)
      nothing q e = cc
  step-IsApart id m (update node) own apart = elim (Bool-cases (str_eq node.name m.local_name)) [
    | inl self ↦ rw (self, notify_update) apart
    | inr other ↦ elim (Option-cases (unmarshal node.meta)) [
      | inl e ↦ rw (other, notify_update, e) apart
      | inr (state, e) ↦
          rw (other, notify_update, e)
            (put_peer-IsApart id m node.name (fix_address node.addr state) other
              (fix_address-name node.addr state ∙ own state e) apart)
    ]
  ]

  run-IsApart :
      (id : GoString) (m : Manager) (cs : List Callback)
      → All NamesItself cs
      → IsApart id m
      → IsApart id (run m cs)
  run-IsApart id m [] own apart = apart
  run-IsApart id m (c ∷ cs) (own, rest) apart =
      run-IsApart id (step m c) cs rest (step-IsApart id m c own apart)

  new_manager-IsApart : (id : GoString) → IsApart id (new_manager id)
  unfolding new_manager lookup
  new_manager-IsApart id = record { local = refl; named = λ k q e. absurd (nothing q e) }
    where
      nothing : (q : NodeState) → ◌≢◌ {A = Option NodeState} none (some q)
      nothing q e = cc

  Among-All :
      (P : NodeState → Type 0) (p : NodeState) (peers : List NodeState)
      → Among p peers
      → All P peers
      → P p
  Among-All P p [] h all = absurd h
  Among-All P p (x ∷ xs) (inl e) (px, all) = subst P e px
  Among-All P p (x ∷ xs) (inr h) (px, all) = Among-All P p xs h all

  -- Whatever callbacks memberlist makes, also for the local node, the peer that `SelectBestPeer`
  -- gives does not have the local node's name, and is the one that `GetPeerByNodeID` gives for its
  -- own name. (`visited` are values of the map of peers, in any order; the metadata of a node that
  -- joins or is updated, where it can be read, carries the node's name. Of addresses nothing is said.)
  pub run-select_best_peer :
      (fl : Floats) (id : GoString) (cs : List Callback) (local_load concurrency : ℕ)
      (visited : List NodeState) (p : NodeState)
      → All NamesItself cs
      → All (λ q. (k : GoString) × (lookup k (run (new_manager id) cs).peers ≡ some q)) visited
      → select_best_peer fl local_load concurrency visited ≡ some p
      → (p.name ≢ id) × (get_peer_by_node_id (run (new_manager id) cs) p.name ≡ some p)
  unfolding get_peer_by_node_id
  run-select_best_peer fl id cs local_load concurrency visited p own kept chosen =
      let apart = run-IsApart id (new_manager id) cs own (new_manager-IsApart id) in
      let (k, at) =
        Among-All (λ q. (k : GoString) × (lookup k (run (new_manager id) cs).peers ≡ some q)) p
          visited (select_best_peer-Among fl local_load concurrency visited p chosen) kept in
      let (same, other) = apart.named k p at in
      (λ e. other (sym same ∙ e), ap (λ n. lookup n (run (new_manager id) cs).peers) same ∙ at)

  -- A state that arrives after its node has left makes the node a peer again, with the address as the
  -- message has it, be it one to bind to: for a message that decodes and a node that is not the local one.
  pub notify_msg-notify_leave :
      (m : Manager) (node : MemberNode) (b : ℕ) (bs : GoString) (state : NodeState)
      → unmarshal (b ∷ bs) ≡ some state
      → state.name ≡ node.name
      → str_eq node.name m.local_name ≡ false
      → get_peer_by_node_id
          (notify_msg unmarshal (notify_leave unmarshal m node) (b ∷ bs))
          node.name
        ≡ some state
  unfolding notify_msg notify_leave get_peer_by_node_id
  notify_msg-notify_leave m node b bs state dec same other =
      let left : Manager = record m { peers = delete node.name m.peers } in
      let after : Manager = put_peer left state.name state in
      let names : str_eq state.name node.name ≡ true = (str_eq_iff state.name node.name).1 same in
      let names' : str_eq node.name state.name ≡ true =
        (str_eq_iff node.name state.name).1 (sym same) in
      let gone : lookup state.name left.peers ≡ none =
        rw (lookup-delete node.name state.name m.peers, names') refl in
      let foreign : str_eq state.name m.local_name ≡ false =
        subst (λ n. str_eq n m.local_name ≡ false) (sym same) other in
      let first : notify_leave unmarshal m node ≡ left = rw (other, notify_leave) refl in
      let second : notify_msg unmarshal left (b ∷ bs) ≡ after =
        rw (dec, notify_msg, foreign, gone, receive_state) refl in
      let found : lookup node.name after.peers ≡ some state =
        rw (lookup-insert state.name node.name state left.peers, names) refl in
      ap (λ l. lookup node.name (notify_msg unmarshal l (b ∷ bs)).peers) first
      ∙ ap (λ l. lookup node.name l.peers) second
      ∙ found
