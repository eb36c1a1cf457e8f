-- ===== src/Scheduler/Naming.antt =====
-- pkg/scheduler/scheduler.go: `ParseOperationNodeID` on the names that `Enqueue` gives, and on any.
use go_rego.Base.{
  ◌≡◌, ◌≢◌, refl, subst, ap, ◌∙◌, inl, inr, some, [], ◌∷◌, ◌++◌, append-nil, append_assoc, ◌==◌,
  if◌then◌else◌, arith, Bool-cases,
}
use go_rego.Base.Text.{GoString}
use go_rego.Scheduler.Names.{
  operation_name, operation_prefix, is_empty, split_colon, strip, strip_operations,
  parse_operation_node_id,
}

abbrev pub NoColon : GoString → Type 0
NoColon [] = Unit
NoColon (c ∷ s) = (c ≢ b':') × NoColon s

split_colon-found :
    (seen a b : GoString) → NoColon a → split_colon seen (a ++ (b':' ∷ b)) ≡ (seen ++ a, b)
unfolding split_colon
split_colon-found seen [] b h = ground (arith, append-nil seen)
split_colon-found seen (c ∷ a) b h =
    ground (arith, split_colon-found (seen ++ (c ∷ [])) a b h.1, append_assoc seen (c ∷ []) a)

split_colon-absent : (seen a : GoString) → NoColon a → split_colon seen a ≡ ([], seen ++ a)
unfolding split_colon
split_colon-absent seen [] h = ground (arith, append-nil seen)
split_colon-absent seen (c ∷ a) h =
    ground (arith, split_colon-absent (seen ++ (c ∷ [])) a h.1, append_assoc seen (c ∷ []) a)

pub strip-append : (p s : GoString) → strip p (p ++ s) ≡ some s
unfolding strip
strip-append [] s = refl
strip-append (c ∷ p) s = ground (arith, strip-append p s)

strip_operations-append : (s : GoString) → s ≢ [] → strip_operations (operation_prefix ++ s) ≡ s
unfolding strip_operations strip
strip_operations-append [] h = absurd (h refl)
strip_operations-append (c ∷ s) h = ground arith

append-ne-nil : (a b : GoString) → b ≢ [] → (a ++ b) ≢ []
append-ne-nil [] b h = h
append-ne-nil (x ∷ a) b h = λ e. cc

prefixed :
    (prefix uuid : GoString)
    → NoColon prefix
    → NoColon uuid
    → uuid ≢ []
    → parse_operation_node_id
        (operation_prefix ++ (if is_empty prefix then uuid else prefix ++ (b':' ∷ uuid)))
      ≡ (prefix, uuid)
unfolding parse_operation_node_id
prefixed [] uuid hp hu ne =
    ap (split_colon []) (strip_operations-append uuid ne) ∙ split_colon-absent [] uuid hu
prefixed (c ∷ p) uuid hp hu ne =
    ap (split_colon []) (strip_operations-append (c ∷ (p ++ (b':' ∷ uuid))) (λ e. cc))
    ∙ split_colon-found [] (c ∷ p) uuid hp

-- The name that `Enqueue` gives to an operation parses back to the node that it was given, the
-- override if there is one, and to the drawn identifier, if neither of the two holds a colon and the
-- identifier is not empty.
pub parse_operation_node_id-operation_name :
    (node_id override uuid : GoString)
    → NoColon (if is_empty override then node_id else override)
    → NoColon uuid
    → uuid ≢ []
    → parse_operation_node_id (operation_name node_id override uuid)
      ≡ (if is_empty override then node_id else override, uuid)
unfolding operation_name
parse_operation_node_id-operation_name node_id override uuid hp hu ne =
    prefixed (if is_empty override then node_id else override) uuid hp hu ne

NoColon-append : (a b : GoString) → NoColon a → NoColon b → NoColon (a ++ b)
NoColon-append [] b ha hb = hb
NoColon-append (c ∷ a) b (hc, ha) hb = (hc, NoColon-append a b ha hb)

split_colon-NoColon : (seen s : GoString) → NoColon seen → NoColon (split_colon seen s).0
unfolding split_colon
split_colon-NoColon seen [] h = tt
split_colon-NoColon seen (c ∷ s) h = elim (Bool-cases (c == b':')) [
  | inl hit ↦ rw hit h
  | inr miss ↦
      rw miss (
        split_colon-NoColon (seen ++ (c ∷ [])) s
          (NoColon-append seen (c ∷ []) h (ground arith, tt)))
]

-- The name of an operation of a node whose identifier holds a colon never parses back to that node.
pub parse_operation_node_id-colon :
    (node_id override uuid : GoString)
    → ¬ NoColon (if is_empty override then node_id else override)
    → (parse_operation_node_id (operation_name node_id override uuid)).0
      ≢ (if is_empty override then node_id else override)
unfolding parse_operation_node_id
parse_operation_node_id-colon node_id override uuid h e = h (
    subst NoColon e
      (split_colon-NoColon [] (strip_operations (operation_name node_id override uuid)) tt))
