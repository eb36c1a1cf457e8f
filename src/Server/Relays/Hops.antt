-- ===== src/Server/Relays/Hops.antt =====
-- pkg/server/execution.go: how far a request goes, by the metadata of the calls between nodes.
use go_rego.Base.{ℕ, ◌≡◌, ◌≢◌, ◌↔◌, refl, sym, ◌∙◌, Option, none, some, [], ◌∷◌}
use go_rego.Base.Text.{GoString}
use go_rego.Base.Results.{Error, Result, ok, err}
use go_rego.Cluster.Peers.{NodeState}
use go_rego.Scheduler.State.{Scheduler}
use go_rego.Scheduler.Queue.{Packing}
use go_rego.Server.Execution.{ExecuteRequest, Route, forwarded, execute}
use go_rego.Server.Routing.{execute-eq-forwarded_iff}
use go_rego.Server.Relays.{
  PeerStream, relay, Metadata, outgoing, incoming_origin, forwarded_from, relayed, fall_back,
  forward_execute,
}

-- What was set is what is there.
pub record IsMetadata {M : Type 0} (md : Metadata M) : Type 0 where
  pub get-set : (m : M) (key value : GoString) → md.get (md.set m key value) key ≡ value ∷ []

module _ {M : Type 0} (md : Metadata M) (laws : IsMetadata md) where
  incoming_origin-outgoing :
      (here : GoString) → incoming_origin md (some (outgoing md (some here))) ≡ some here
  unfolding incoming_origin outgoing
  incoming_origin-outgoing here =
      rw (incoming_origin, outgoing, laws.get-set md.pairs forwarded_from here) refl

module _ {C M R A : Type 0} (pb : Packing R) (cached_response : A → R) (md : Metadata M)
    (laws : IsMetadata md) where
  -- A peer's handler: `serve` is the stream that it makes of how its `Execute` goes on.
  abbrev pub at_peer :
      (Scheduler R × Route R → Result (PeerStream R))
      → Scheduler R
      → Option A
      → Option NodeState
      → GoString
      → (now later : ℕ) → C
      → ExecuteRequest
      → M
      → Result (PeerStream R)
  at_peer serve s cached peer uuid now later conn req m =
      serve
        (execute pb cached_response s req cached (incoming_origin md (some m)) peer uuid now later)

  -- `Execute` hands a request to a peer exactly if the cache gives no result, the metadata names no
  -- node that forwarded the request, and that peer was selected. The peer that gets it this way, in
  -- whatever state it is and whichever peer it would select, does not hand it on to another node:
  -- what `forwardExecute` relays comes of a call that goes on at that peer. (A value that was set in
  -- the metadata is the one that is read, the peer reads the metadata of the call, and there is a
  -- connection to it.)
  pub forward_execute-at_peer :
      (s there : Scheduler R) (req : ExecuteRequest) (incoming : Option M) (here : GoString)
      (cached cached' : Option A) (peer peer' : Option NodeState) (uuid uuid' : GoString)
      (now later now' later' : ℕ) (conn : C) (send : ℕ → Option Error)
      (serve : Scheduler R × Route R → Result (PeerStream R))
      → ((p : NodeState)
          → ((execute pb cached_response s req cached
                (incoming_origin md incoming)
                peer
                uuid
                now
                later).1
              ≡ forwarded p)
            ↔ ((cached ≡ none) × (incoming_origin md incoming ≡ none) × (peer ≡ some p)))
        × ((x : Scheduler R × Route R) × ((q : NodeState) → x.1 ≢ forwarded q)
            × (forward_execute pb cached_response md s req
                  (incoming_origin md incoming)
                  (ok conn)
                  (at_peer serve there cached' peer' uuid' now' later')
                  (some here)
                  send
                  uuid
                  now
                ≡ (elim (serve x) [
                  | err _ ↦
                      fall_back pb cached_response s req (incoming_origin md incoming) uuid now
                  | ok stream ↦ relayed (relay send stream)
                ])))
  unfolding forward_execute
  forward_execute-at_peer s there req incoming here cached cached' peer peer' uuid uuid' now later
        now' later' conn send serve =
      let origin = incoming_origin md (some (outgoing md (some here))) in
      (
        execute-eq-forwarded_iff pb cached_response s req cached (incoming_origin md incoming) peer
            uuid now later,
        (
          execute pb cached_response there req cached' origin peer' uuid' now' later',
          λ q e. some-ne-none (
              sym (incoming_origin-outgoing md laws here)
              ∙ ((execute-eq-forwarded_iff pb cached_response there req cached' origin peer' uuid'
                    now' later' q).0
                  e).1),
          refl,
        ),
      )
    where
      some-ne-none : {o : GoString} → ◌≢◌ {A = Option GoString} (some o) none
      some-ne-none e = cc
