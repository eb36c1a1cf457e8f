-- ===== src/Cluster/Discovery.antt =====
-- pkg/cluster/cluster.go: the peers that DNS gives, without those that are known.
use go_rego.Base.{
  ◌≡◌, ◌≢◌, refl, ap, sym, ◌∙◌, true, false, some, List, [], ◌∷◌, ◌++◌, append_assoc, arith,
  Bool-cases, inl, inr,
}
use go_rego.Base.Text.{GoString, str_eq_iff}
use go_rego.Cluster.Addresses.{has_byte, split_last, join_host_port, split_last-colon}
use go_rego.Cluster.Membership.{is_known, filter_known_peers, dns_candidates}

-- The ports of all members are without a colon.
abbrev pub PortsPlain : List (GoString × GoString) → Type 0
PortsPlain [] = Unit
PortsPlain ((addr, port) ∷ members) = (has_byte b':' port ≡ false) × PortsPlain members

-- The parts of two addresses agree if the addresses do.
hosts_eq :
    (a b p q : GoString)
    → has_byte b':' p ≡ false
    → has_byte b':' q ≡ false
    → a ++ (b':' ∷ p) ≡ b ++ (b':' ∷ q)
    → a ≡ b
hosts_eq a b p q hp hq e =
    unwrapped (sym (split_last-colon a p hp) ∙ ap split_last e ∙ split_last-colon b q hq)
  where
    unwrapped : {x y : GoString × GoString} → some x ≡ some y → x.0 ≡ y.0
    unwrapped e = cc

join_host_port-ne :
    (addr port ip bind_port : GoString)
    → has_byte b':' port ≡ false
    → has_byte b':' bind_port ≡ false
    → has_byte b':' ip ≡ true
    → has_byte b'[' ip ≡ false
    → join_host_port addr port ≢ ip ++ (b':' ∷ bind_port)
unfolding join_host_port has_byte
join_host_port-ne addr port ip bind_port hp hb six open_bracket e =
    elim (Bool-cases (has_byte b':' addr)) [
      | inr four ↦
          let same : addr ≡ ip =
            hosts_eq addr ip port bind_port hp hb (rw (join_host_port, four) at e) in
          clash (sym four ∙ ap (has_byte b':') same ∙ six)
      | inl colon ↦
          let bracketed : b'[' ∷ (addr ++ (b']' ∷ (b':' ∷ port))) ≡ ip ++ (b':' ∷ bind_port) =
            rw (join_host_port, colon) at e in
          let same : b'[' ∷ (addr ++ (b']' ∷ [])) ≡ ip =
            hosts_eq (b'[' ∷ (addr ++ (b']' ∷ []))) ip port bind_port hp hb
              (ap (λ l. b'[' ∷ l) (append_assoc addr (b']' ∷ []) (b':' ∷ port)) ∙ bracketed) in
          clash (sym open_bracket ∙ sym (ap (has_byte b'[') same))
    ]
  where
    clash : false ≢ true
    clash e = cc

-- An IPv6 address that DNS gives is never taken for known, whatever the members are: it is written
-- without the brackets that the addresses of members get. (No port has a colon in it.)
pub filter_known_peers-dns_candidates :
    (members : List (GoString × GoString)) (bind_port ip : GoString) (ips : List GoString)
    → PortsPlain members
    → has_byte b':' bind_port ≡ false
    → has_byte b':' ip ≡ true
    → has_byte b'[' ip ≡ false
    → filter_known_peers members (dns_candidates bind_port (ip ∷ ips))
      ≡ (ip ++ (b':' ∷ bind_port)) ∷ filter_known_peers members (dns_candidates bind_port ips)
unfolding filter_known_peers dns_candidates
filter_known_peers-dns_candidates members bind_port ip ips plain hb six open_bracket =
    rw (unknown members plain) refl
  where
    unknown :
        (l : List (GoString × GoString))
        → PortsPlain l
        → is_known l (ip ++ (b':' ∷ bind_port)) ≡ false
    unknown [] p = refl
    unknown ((addr, port) ∷ l) p = ground (
      arith,
      unknown l p.1,
      str_eq_iff (join_host_port addr port) (ip ++ (b':' ∷ bind_port)),
      join_host_port-ne addr port ip bind_port p.0 hb six open_bracket,
    )
