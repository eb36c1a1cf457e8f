-- ===== src/Server/Waiting.antt =====
-- pkg/server/execution.go: `WaitExecution` over the nodes of a cluster.
use go_rego.Base.{
  ℕ, suc, ◌≡◌, ◌≢◌, ◌≤◌, ◌<◌, refl, ap, sym, ◌∙◌, false, not, Option, none, some, List, [], ◌∷◌,
  ◌++◌, append-nil, append_assoc, ◌==◌, max, length, if◌then◌else◌, arith,
}
use go_rego.Base.Lists.{All}
use go_rego.Base.Text.{GoString, str_eq, str_eq_iff, str_eq_refl}
use go_rego.Base.Dict.{lookup}
use go_rego.Base.Results.{Code, status, err}
use go_rego.Cluster.Peers.{NodeState}
use go_rego.Scheduler.State.{Scheduler, new_scheduler}
use go_rego.Scheduler.Names.{
  is_empty, operation_id, operation_name, operation_prefix, strip, parse_operation_node_id,
}
use go_rego.Scheduler.Naming.{NoColon, strip-append, parse_operation_node_id-operation_name}
use go_rego.Scheduler.Updates.{find_op}
use go_rego.Scheduler.Queue.{Packing, new_op, enqueue, get_operation}
use go_rego.Scheduler.Subscriptions.{subscribe}
use go_rego.Scheduler.Events.{
  Event, enqueues, dequeues, updates, completes, fails, cancels, deletes, subscribes, unsubscribes,
  receives, cleans, run,
}
use go_rego.Server.Execution.{
  ExecuteRequest, Route, refused, forwarded, execute, execute_locally, wait_execution,
  owner_elsewhere,
}
use go_rego.Server.Routing.{find_op-admit}
use go_rego.Server.Streams.Deleted.{Avoids, run-IsGone}

abbrev pub ask_peer : {R : Type 0} → Option NodeState → Route R
ask_peer none = refused (status Code.not_found)
ask_peer (some peer) = forwarded peer

not-is_empty : (s : GoString) → s ≢ [] → is_empty s ≡ false
not-is_empty [] h = absurd (h refl)
not-is_empty (c ∷ s) h = refl

-- The node that an operation named for `owner` is looked up at.
owner_elsewhere-operation_name :
    (here executor owner uuid : GoString)
    → NoColon owner
    → owner ≢ []
    → NoColon uuid
    → uuid ≢ []
    → owner_elsewhere (some here) (operation_name executor owner uuid)
      ≡ (if not (str_eq owner here) then some owner else none)
owner_elsewhere-operation_name here executor owner uuid ho ho' hu hu' =
    let full = not-is_empty owner ho' in
    let named : parse_operation_node_id (operation_name executor owner uuid) ≡ (owner, uuid) =
      rw full at (parse_operation_node_id-operation_name executor owner uuid (rw full ho) hu hu') in
    rw (named, full)

-- What is behind the last colon; `seen` holds the bytes since the one before.
abbrev behind_colon : (seen : GoString) → GoString → GoString
behind_colon seen [] = seen
behind_colon seen (c ∷ s) = behind_colon (if c == b':' then [] else seen ++ (c ∷ [])) s

behind_colon-NoColon : (seen s : GoString) → NoColon s → behind_colon seen s ≡ seen ++ s
behind_colon-NoColon seen [] h = sym (append-nil seen)
behind_colon-NoColon seen (c ∷ s) (h, hs) =
    let other : (c == b':') ≡ false = ground arith in
    rw other (behind_colon-NoColon (seen ++ (c ∷ [])) s hs ∙ append_assoc seen (c ∷ []) s)

behind_colon-append : (seen a s : GoString) → NoColon s → behind_colon seen (a ++ (b':' ∷ s)) ≡ s
behind_colon-append seen [] s h = behind_colon-NoColon [] s h
behind_colon-append seen (c ∷ a) s h =
    behind_colon-append (if c == b':' then [] else seen ++ (c ∷ [])) a s h

behind_colon-operation_id :
    (node override uuid : GoString)
    → NoColon uuid
    → behind_colon [] (operation_id node override uuid) ≡ uuid
unfolding operation_id
behind_colon-operation_id [] [] uuid h = behind_colon-NoColon [] uuid h
behind_colon-operation_id (c ∷ node) [] uuid h = behind_colon-append [] (c ∷ node) uuid h
behind_colon-operation_id node (c ∷ override) uuid h = behind_colon-append [] (c ∷ override) uuid h

-- Names with different identifiers differ, whatever nodes they carry.
operation_name-ne :
    (node node' override override' uuid uuid' : GoString)
    → NoColon uuid
    → NoColon uuid'
    → uuid ≢ uuid'
    → operation_name node override uuid ≢ operation_name node' override' uuid'
unfolding operation_name
operation_name-ne node node' override override' uuid uuid' h h' ne e =
    let id = operation_id node override uuid in
    let id' = operation_id node' override' uuid' in
    let stripped : ◌≡◌ {A = Option GoString} (some id) (some id') =
      sym (strip-append operation_prefix id)
      ∙ ap (strip operation_prefix) e
      ∙ strip-append operation_prefix id' in
    let same : id ≡ id' = cc in
    ne (
      sym (behind_colon-operation_id node override uuid h)
      ∙ ap (behind_colon []) same
      ∙ behind_colon-operation_id node' override' uuid' h')

-- No call of the history draws the identifier; those that are drawn have no colon.
abbrev pub Undrawn : {R : Type 0} → GoString → Event R → Type 0
Undrawn uuid (enqueues d skip override drawn now) = NoColon drawn × (drawn ≢ uuid)
Undrawn uuid _ = Unit

-- A channel whose subscription no call ends.
abbrev beyond : {R : Type 0} → List (Event R) → ℕ
beyond [] = 0
beyond (unsubscribes n c ∷ es) = max (suc c) (beyond es)
beyond (e ∷ es) = beyond es

module _ {R : Type 0} (pb : Packing R) where
  Undrawn-Avoids :
      (node executor origin uuid : GoString) (ch : ℕ) (es : List (Event R))
      → NoColon uuid
      → beyond es ≤ ch
      → All (Undrawn uuid) es
      → All (Avoids node (operation_name executor origin uuid) ch) es
  Undrawn-Avoids node executor origin uuid ch [] hu le h = tt
  Undrawn-Avoids node executor origin uuid ch (enqueues d skip override drawn now ∷ es) hu le
        ((plain, ne), hs) =
      (
        operation_name-ne node executor override origin drawn uuid plain hu ne,
        Undrawn-Avoids node executor origin uuid ch es hu le hs,
      )
  Undrawn-Avoids node executor origin uuid ch (unsubscribes n c ∷ es) hu le (_, hs) =
      (omega arith, Undrawn-Avoids node executor origin uuid ch es hu (omega arith) hs)
  Undrawn-Avoids node executor origin uuid ch (dequeues stop pick ∷ es) hu le (_, hs) =
      (tt, Undrawn-Avoids node executor origin uuid ch es hu le hs)
  Undrawn-Avoids node executor origin uuid ch (updates n state metadata now ∷ es) hu le (_, hs) =
      (tt, Undrawn-Avoids node executor origin uuid ch es hu le hs)
  Undrawn-Avoids node executor origin uuid ch (completes n result now ∷ es) hu le (_, hs) =
      (tt, Undrawn-Avoids node executor origin uuid ch es hu le hs)
  Undrawn-Avoids node executor origin uuid ch (fails n error now ∷ es) hu le (_, hs) =
      (tt, Undrawn-Avoids node executor origin uuid ch es hu le hs)
  Undrawn-Avoids node executor origin uuid ch (cancels n now ∷ es) hu le (_, hs) =
      (tt, Undrawn-Avoids node executor origin uuid ch es hu le hs)
  Undrawn-Avoids node executor origin uuid ch (deletes n ∷ es) hu le (_, hs) =
      (tt, Undrawn-Avoids node executor origin uuid ch es hu le hs)
  Undrawn-Avoids node executor origin uuid ch (subscribes n ∷ es) hu le (_, hs) =
      (tt, Undrawn-Avoids node executor origin uuid ch es hu le hs)
  Undrawn-Avoids node executor origin uuid ch (receives c ∷ es) hu le (_, hs) =
      (tt, Undrawn-Avoids node executor origin uuid ch es hu le hs)
  Undrawn-Avoids node executor origin uuid ch (cleans now ∷ es) hu le (_, hs) =
      (tt, Undrawn-Avoids node executor origin uuid ch es hu le hs)

  run-absent :
      (queue_size : ℕ) (node executor origin uuid : GoString) (es : List (Event R))
      → NoColon uuid
      → All (Undrawn uuid) es
      → lookup
          (operation_name executor origin uuid)
          (run pb (new_scheduler queue_size node) es).operations
        ≡ none
  unfolding new_scheduler lookup
  run-absent queue_size node executor origin uuid es hu h =
      (run-IsGone node (operation_name executor origin uuid) (beyond es) pb
        (new_scheduler queue_size node) es (record { absent = refl; opened = refl; named = refl })
        (Undrawn-Avoids node executor origin uuid (beyond es) es hu (omega arith) h)).absent

  module _ {A : Type 0} (cached_response : A → R) where
    find_op-execute :
        (s : Scheduler R) (req : ExecuteRequest) (origin : GoString) (peer : Option NodeState)
        (uuid : GoString) (now later : ℕ)
        → length s.task_queue < s.queue_size
        → find_op
            (execute pb cached_response s req none (some origin) peer uuid now later).0
            (operation_name s.node_id origin uuid)
          ≡ some
              (s.next_pointer, new_op (operation_name s.node_id origin uuid) req.action_digest now)
    unfolding execute execute_locally enqueue subscribe find_op
    find_op-execute s req origin peer uuid now later room =
        let name = operation_name s.node_id origin uuid in
        ground (
          arith,
          find_op-admit pb cached_response s name (operation_id s.node_id origin uuid)
              req.action_digest req.skip_cache_lookup now,
        )

    -- The operation of a request that another node forwarded is kept by the node that executes it, if
    -- its queue has room, but is named for the node that forwarded it. Every node but the forwarding
    -- one, the executing node included, asks the forwarding node for it in `WaitExecution`, where it
    -- knows that node; and the forwarding node answers that there is no such operation, after
    -- whatever history of calls on its scheduler. (The identifier that the executing node drew is
    -- not empty, is drawn by no call of that history, and no identifier that is drawn, nor the name
    -- of the forwarding node, has a colon; that name is not empty.)
    pub wait_execution-forwarded :
        (s : Scheduler R) (req : ExecuteRequest) (origin uuid : GoString) (peer : Option NodeState)
        (now later queue_size : ℕ) (es : List (Event R)) (peers : GoString → Option NodeState)
        → NoColon origin
        → origin ≢ []
        → NoColon uuid
        → uuid ≢ []
        → length s.task_queue < s.queue_size
        → All (Undrawn uuid) es
        → let name = operation_name s.node_id origin uuid in
          let kept = (execute pb cached_response s req none (some origin) peer uuid now later).0 in
          let at_origin = run pb (new_scheduler queue_size origin) es in
          (find_op kept name ≡ some (s.next_pointer, new_op name req.action_digest now))
          × ((t : Scheduler R) (here : GoString)
              → here ≢ origin
              → wait_execution pb t (some here) peers name ≡ (t, ask_peer (peers origin)))
          × (wait_execution pb at_origin (some origin) peers name
              ≡ (at_origin, refused (status Code.not_found)))
    unfolding wait_execution get_operation find_op
    wait_execution-forwarded s req origin uuid peer now later queue_size es peers ho ho' hu hu' room
          undrawn =
        (
          find_op-execute s req origin peer uuid now later room,
          λ t here ne. rw (other here ne, wait_execution) (asked t (peers origin)),
          rw (self, wait_execution, missing),
        )
      where
        other :
            (here : GoString)
            → here ≢ origin
            → owner_elsewhere (some here) (operation_name s.node_id origin uuid) ≡ some origin
        other here ne =
            owner_elsewhere-operation_name here s.node_id origin uuid ho ho' hu hu'
            ∙ ground (arith, str_eq_iff origin here)

        self : owner_elsewhere (some origin) (operation_name s.node_id origin uuid) ≡ none
        self =
            owner_elsewhere-operation_name origin s.node_id origin uuid ho ho' hu hu'
            ∙ ground (arith, str_eq_refl origin)

        missing :
            get_operation pb
              (run pb (new_scheduler queue_size origin) es)
              (operation_name s.node_id origin uuid)
            ≡ err (status Code.not_found)
        missing =
            rw
              (
                run-absent queue_size origin s.node_id origin uuid es hu undrawn,
                get_operation,
                find_op,
              )
              refl

        asked :
            (t : Scheduler R) (o : Option NodeState)
            → ◌≡◌ {A = Scheduler R × Route R}
                (elim o [
                  | none ↦ (t, refused (status Code.not_found))
                  | some peer ↦ (t, forwarded peer)
                ])
                (t, ask_peer o)
        asked t none = refl
        asked t (some peer) = refl
