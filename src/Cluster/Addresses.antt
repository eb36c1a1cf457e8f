-- ===== src/Cluster/Addresses.antt =====
-- `net.SplitHostPort` and `net.JoinHostPort` of Go, which pkg/cluster/cluster.go uses.
use go_rego.Base.{
  ◌≡◌, ◌≢◌, refl, ap, sym, subst, Option-cases, append_assoc, ◌∙◌, Bool, true, false, not, ◌&&◌,
  ◌||◌, Option, none, some, [], ◌∷◌, ◌++◌, ◌==◌, if◌then◌else◌, arith, ℕ, Bool-cases, inl, inr,
}
use go_rego.Base.Text.{GoString}

-- `strings.IndexByte(s, c) >= 0`
unfoldable pub has_byte : ℕ → GoString → Bool
has_byte c [] = false
has_byte c (x ∷ s) = x == c || has_byte c s

-- What stands before the last colon and after it.
unfoldable pub split_last : GoString → Option (GoString × GoString)
split_last [] = none
split_last (c ∷ s) = elim (split_last s) [
  | some (before, after) ↦ some (c ∷ before, after)
  | none ↦ if c == b':' then some ([], s) else none
]

-- The text before a "]" that is the last byte and the only one.
unfoldable pub unbracket : GoString → Option GoString
unbracket [] = none
unbracket (c ∷ s) = elim (c == b']') [
  | true ↦ elim s [ [] ↦ some [] | _ ∷ _ ↦ none ]
  | false ↦ elim (unbracket s) [ none ↦ none | some t ↦ some (c ∷ t) ]
]

abbrev pub no_brackets : GoString → Bool
no_brackets s = not (has_byte b'[' s || has_byte b']' s)

abbrev pub plain_host : GoString → GoString → Option (GoString × GoString)
plain_host host port =
    if not (has_byte b':' host) && (no_brackets host && no_brackets port)
    then some (host, port)
    else none

abbrev pub bracketed_host : Option GoString → GoString → Option (GoString × GoString)
bracketed_host none port = none
bracketed_host (some host) port =
    if not (has_byte b'[' host) && no_brackets port then some (host, port) else none

abbrev pub check_parts : GoString → GoString → Option (GoString × GoString)
check_parts [] port = plain_host [] port
check_parts (c ∷ host) port =
    if c == b'[' then bracketed_host (unbracket host) port else plain_host (c ∷ host) port

unfoldable pub split_host_port : GoString → Option (GoString × GoString)
split_host_port address = elim (split_last address) [
  | none ↦ none
  | some (host, port) ↦ check_parts host port
]

unfoldable pub join_host_port : GoString → GoString → GoString
join_host_port host port =
    if has_byte b':' host then b'[' ∷ (host ++ (b']' ∷ (b':' ∷ port))) else host ++ (b':' ∷ port)

split_last-absent : (s : GoString) → has_byte b':' s ≡ false → split_last s ≡ none
unfolding split_last has_byte
split_last-absent [] h = refl
split_last-absent (c ∷ s) h = rw (split_last-absent s (ground arith), split_last) (ground arith)

pub split_last-colon :
    (host port : GoString)
    → has_byte b':' port ≡ false
    → split_last (host ++ (b':' ∷ port)) ≡ some (host, port)
unfolding split_last
split_last-colon [] port h = rw (split_last-absent port h, split_last) refl
split_last-colon (c ∷ host) port h = rw (split_last-colon host port h, split_last) refl

unbracket-bracket :
    (host : GoString) → has_byte b']' host ≡ false → unbracket (host ++ (b']' ∷ [])) ≡ some host
unfolding unbracket has_byte
unbracket-bracket [] h = refl
unbracket-bracket (c ∷ host) h = elim (Bool-cases (c == b']')) [
  | inl close ↦ absurd (ground arith)
  | inr other ↦ rw (other, unbracket, unbracket-bracket host (ground arith)) refl
]

-- A host without brackets; a port without brackets and colons.
abbrev pub IsHost : GoString → Type 0
IsHost host = (has_byte b'[' host ≡ false) × (has_byte b']' host ≡ false)

abbrev pub IsPort : GoString → Type 0
IsPort port =
    (has_byte b':' port ≡ false) × (has_byte b'[' port ≡ false) × (has_byte b']' port ≡ false)

check_parts-plain :
    (host port : GoString)
    → IsHost host
    → IsPort port
    → has_byte b':' host ≡ false
    → check_parts host port ≡ some (host, port)
unfolding has_byte
check_parts-plain [] port h p n = ground arith
check_parts-plain (c ∷ host) port h p n = ground arith

pub split_host_port-join_host_port :
    (host port : GoString)
    → IsHost host
    → IsPort port
    → split_host_port (join_host_port host port) ≡ some (host, port)
unfolding split_host_port join_host_port
split_host_port-join_host_port host port h p = elim (Bool-cases (has_byte b':' host)) [
  | inr four ↦
      rw (four, split_last-colon host port p.0, split_host_port)
        (check_parts-plain host port h p four)
  | inl six ↦
      let address : split_last (b'[' ∷ (host ++ (b']' ∷ (b':' ∷ port))))
          ≡ some (b'[' ∷ (host ++ (b']' ∷ [])), port) =
        ap (λ l. split_last (b'[' ∷ l)) (sym (append_assoc host (b']' ∷ []) (b':' ∷ port)))
        ∙ split_last-colon (b'[' ∷ (host ++ (b']' ∷ []))) port p.0 in
      rw (six, address, split_host_port, unbracket-bracket host h.1, h.0, p.1, p.2) refl
]

unbracket-absent : (s host : GoString) → unbracket s ≡ some host → has_byte b']' host ≡ false
unfolding unbracket has_byte
unbracket-absent [] host h = absurd (cc)
unbracket-absent (c ∷ []) host h = ground arith
unbracket-absent (c ∷ (d ∷ s)) host h = elim (Bool-cases (c == b']')) [
  | inl close ↦ absurd (stop (rw (close, unbracket) at h))
  | inr other ↦ elim (Option-cases (unbracket (d ∷ s))) [
    | inl e ↦ absurd (stop (rw (other, unbracket, e) at h))
    | inr (t, e) ↦
        let same : some (c ∷ t) ≡ some host = rw (other, unbracket, e) at h in
        let inner = unbracket-absent (d ∷ s) t e in
        let host_is : c ∷ t ≡ host = cc in
        subst (λ l. has_byte b']' l ≡ false) host_is (rw other inner)
  ]
]
  where
    stop : {t : GoString} → ◌≢◌ {A = Option GoString} none (some t)
    stop e = cc

split_last-none : (s : GoString) → split_last s ≡ none → has_byte b':' s ≡ false
unfolding split_last has_byte
split_last-none [] h = refl
split_last-none (c ∷ s) h = elim (Option-cases (split_last s)) [
  | inl e ↦ elim (Bool-cases (c == b':')) [
    | inl colon ↦ absurd (stop (rw (e, split_last, colon) at h))
    | inr other ↦ rw other (split_last-none s e)
  ]
  | inr (parts, e) ↦ absurd (stop (rw (e, split_last) at h))
]
  where
    stop : {t : GoString × GoString} → ◌≢◌ {A = Option (GoString × GoString)} (some t) none
    stop e = cc

split_last-absent_after :
    (s before after : GoString) → split_last s ≡ some (before, after) → has_byte b':' after ≡ false
unfolding split_last
split_last-absent_after [] before after h = absurd (cc)
split_last-absent_after (c ∷ s) before after h = elim (Option-cases (split_last s)) [
  | inl e ↦ elim (Bool-cases (c == b':')) [
    | inl colon ↦
        let same : Same ([], s) (before, after) = rw (e, split_last, colon) at h in
        subst (λ l. has_byte b':' l ≡ false) (ap (λ p. p.1) (unwrapped same)) (split_last-none s e)
    | inr other ↦ absurd (stop (rw (e, split_last, other) at h))
  ]
  | inr (parts, e) ↦
      let same : Same (c ∷ parts.0, parts.1) (before, after) = rw (e, split_last) at h in
      subst (λ l. has_byte b':' l ≡ false) (ap (λ p. p.1) (unwrapped same))
        (split_last-absent_after s parts.0 parts.1 e)
]
  where
    Same : GoString × GoString → GoString × GoString → Type 0
    Same a b = some a ≡ some b

    unwrapped : {p q : GoString × GoString} → some p ≡ some q → p ≡ q
    unwrapped e = cc

    stop : {t : GoString × GoString} → ◌≢◌ {A = Option (GoString × GoString)} none (some t)
    stop e = cc

-- What a check of the two parts has seen.
abbrev Checked : GoString → GoString → GoString → Type 0
Checked host port part =
    IsHost host × (port ≡ part) × (has_byte b'[' part ≡ false) × (has_byte b']' part ≡ false)

plain_host-Checked :
    (a b host port : GoString) → plain_host a b ≡ some (host, port) → Checked host port b
plain_host-Checked a b host port h = ground arith

bracketed_host-Checked :
    (r : Option GoString) (b host port : GoString)
    → ((t : GoString) → r ≡ some t → has_byte b']' t ≡ false)
    → bracketed_host r b ≡ some (host, port)
    → Checked host port b
bracketed_host-Checked none b host port close h = absurd (cc)
bracketed_host-Checked (some t) b host port close h = ground (arith, close t refl)

check_parts-Checked :
    (a b host port : GoString) → check_parts a b ≡ some (host, port) → Checked host port b
check_parts-Checked [] b host port h = plain_host-Checked [] b host port h
check_parts-Checked (c ∷ a) b host port h = elim (Bool-cases (c == b'[')) [
  | inl bracket ↦
      bracketed_host-Checked (unbracket a) b host port (unbracket-absent a)
        (rw (check_parts, bracket) at h)
  | inr other ↦ plain_host-Checked (c ∷ a) b host port (rw (check_parts, other) at h)
]

-- The parts that are split can be joined and split again.
pub split_host_port-parts :
    (address host port : GoString)
    → split_host_port address ≡ some (host, port)
    → IsHost host × IsPort port
unfolding split_host_port
split_host_port-parts address host port h = elim (Option-cases (split_last address)) [
  | inl e ↦ absurd (stop (rw (e, split_host_port) at h))
  | inr (parts, e) ↦
      let (plain, same, open_bracket, close_bracket) =
        check_parts-Checked parts.0 parts.1 host port (rw (e, split_host_port) at h) in
      let free = split_last-absent_after address parts.0 parts.1 e in
      (plain, subst IsPort (sym same) (free, open_bracket, close_bracket))
]
  where
    stop : {t : GoString × GoString} → ◌≢◌ {A = Option (GoString × GoString)} none (some t)
    stop e = cc
