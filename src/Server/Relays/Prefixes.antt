-- ===== src/Server/Relays/Prefixes.antt =====
-- pkg/server/execution.go: what the client of a forwarded request is sent.
use go_rego.Base.{
  ℕ, zero, suc, ◌+◌, ◌<◌, ◌≡◌, ◌≢◌, ◌⊎◌, inl, inr, refl, Option, none, some, List, [], ◌∷◌, ◌++◌,
  length, arith, Option-cases,
}
use go_rego.Base.Text.{GoString, str_eq_refl}
use go_rego.Base.Dict.{Dict, lookup-insert}
use go_rego.Base.Results.{Error, Result, ok, err, Result-cases}
use go_rego.Scheduler.State.{Scheduler}
use go_rego.Scheduler.Queue.{Packing, Operation}
use go_rego.Server.Execution.{ExecuteRequest}
use go_rego.Server.Relays.{
  PeerStream, Metadata, outgoing, Relayed, relay_loop, relay, get_or_create_conn, relayed,
  fall_back, forward_execute,
}

-- The client was sent the first messages of the peer, in order: all of them, and then the peer's
-- end is returned; or those before the first `Send` that failed, and then its error is returned.
pub record IsPrefix {R : Type 0} (send : ℕ → Option Error) (n : ℕ) (ops : List (Operation R))
    (ends : Option Error) (r : Relayed R) : Type 0 where
  pub rest : List (Operation R)
  pub split : ops ≡ r.sent ++ rest
  pub earlier : (k : ℕ) → k < length r.sent → send (n + k) ≡ none
  pub final :
      ((rest ≡ []) × (r.error ≡ ends))
      ⊎ ((rest ≢ []) × ((e : Error) × (send (n + length r.sent) ≡ some e) × (r.error ≡ some e)))

-- The sends that went well, one more at the front.
one_more :
    (send : ℕ → Option Error) (n m : ℕ)
    → send n ≡ none
    → ((k : ℕ) → k < m → send (suc n + k) ≡ none)
    → (k : ℕ) → k < suc m
    → send (n + k) ≡ none
one_more send n m here later zero h = rw (let e : n + 0 ≡ n = omega arith in e) here
one_more send n m here later (suc k) h =
    rw (let e : n + suc k ≡ suc n + k = omega arith in e) (later k (omega arith))

relay_loop-IsPrefix :
    {R : Type 0} (send : ℕ → Option Error) (n : ℕ) (ops : List (Operation R)) (ends : Option Error)
    → IsPrefix send n ops ends (relay_loop send n ops ends)
unfolding relay_loop
relay_loop-IsPrefix send n [] ends = record {
  rest = [];
  split = refl;
  earlier = λ k h. absurd (omega arith);
  final = inl (refl, refl);
}
relay_loop-IsPrefix send n (op ∷ ops) ends = elim (Option-cases (send n)) [
  | inr (e, refused) ↦
      rw (relay_loop, refused)
        (record {
          rest = op ∷ ops;
          split = refl;
          earlier = λ k h. absurd (omega arith);
          final = inr (λ h. cc, (e, ground arith, refl));
        })
  | inl sent ↦
      let v = relay_loop-IsPrefix send (suc n) ops ends in
      let v_sent = (relay_loop send (suc n) ops ends).sent in
      rw (relay_loop, sent)
        (record {
          rest = v.rest;
          split = ground (arith, v.split);
          earlier = one_more send n _ sent v.earlier;
          final = elim v.final [
            | inl (whole, ends_so) ↦ inl (whole, ends_so)
            | inr (cut, (e, refused, ends_so)) ↦ inr (
              cut,
              (
                e,
                rw
                    (let shift : n + suc (length v_sent) ≡ suc n + length v_sent = omega arith in
                      shift)
                    refused,
                ends_so,
              ),
            )
          ];
        })
]

-- A connection that was given is there for the next call, which makes none.
get_or_create_conn-again :
    {C : Type 0} (dial dial' : GoString → Result C) (conns raced : Dict C) (addr : GoString)
    (conn : C)
    → (get_or_create_conn dial conns raced addr).1 ≡ ok conn
    → let after = (get_or_create_conn dial conns raced addr).0 in
      get_or_create_conn dial' after after addr ≡ (after, ok conn)
unfolding get_or_create_conn
get_or_create_conn-again dial dial' conns raced addr conn e =
    ground (arith, lookup-insert addr addr conn raced, str_eq_refl addr)

module _ {C M R A : Type 0} (pb : Packing R) (cached_response : A → R) (md : Metadata M) where
  -- A request that is to be forwarded is executed here if no connection is made or the call on it
  -- fails, and only then. Otherwise the client is sent the peer's messages, in order, up to the first
  -- `Send` that fails; the call returns the error of that `Send`, or, after the last message, the
  -- peer's error, if there was one.
  pub forward_execute_lem :
      (s : Scheduler R) (req : ExecuteRequest) (origin : Option GoString) (conn : Result C)
      (call : C → ExecuteRequest → M → Result (PeerStream R)) (node : Option GoString)
      (send : ℕ → Option Error) (uuid : GoString) (now : ℕ)
      → let f = forward_execute pb cached_response md s req origin conn call node send uuid now in
        ((c : C) × (stream : PeerStream R) × (r : Relayed R) × (conn ≡ ok c)
          × (call c req (outgoing md node) ≡ ok stream)
          × (f ≡ relayed r)
          × IsPrefix send 0 stream.messages stream.ends r)
        ⊎ ((((e : Error) × (conn ≡ err e))
              ⊎ ((c : C) × (e : Error) × (conn ≡ ok c) × (call c req (outgoing md node) ≡ err e)))
            × (f ≡ fall_back pb cached_response s req origin uuid now))
  unfolding forward_execute relay
  forward_execute_lem s req origin (err e) call here send uuid now = inr (inl (e, refl), refl)
  forward_execute_lem s req origin (ok c) call here send uuid now =
      elim (Result-cases (call c req (outgoing md here))) [
        | inr (e, failed) ↦ inr (inr (c, e, refl, failed), rw (forward_execute, failed) refl)
        | inl (stream, called) ↦ inl (
          c,
          stream,
          relay send stream,
          refl,
          called,
          rw (forward_execute, called) refl,
          relay_loop-IsPrefix send 0 stream.messages stream.ends,
        )
      ]
