-- ===== src/Scheduler/Names.antt =====
-- pkg/scheduler/scheduler.go: the names of operations, which carry the node that they belong to.
use go_rego.Base.{
  Bool, true, false, Option, none, some, [], ◌∷◌, ◌++◌, ltb, ◌==◌, if◌then◌else◌, length,
}
use go_rego.Base.Text.{GoString, codes}

abbrev pub operation_prefix : GoString
operation_prefix = codes "operations/"

abbrev pub is_empty : GoString → Bool
is_empty [] = true
is_empty (_ ∷ _) = false

-- The identifier and the name that `Enqueue` gives to an operation.
unfoldable pub operation_id : GoString → GoString → GoString → GoString
operation_id node_id override uuid =
    let prefix = if is_empty override then node_id else override in
    if is_empty prefix then uuid else prefix ++ (b':' ∷ uuid)

unfoldable pub operation_name : GoString → GoString → GoString → GoString
unfolding operation_id
operation_name node_id override uuid = operation_prefix ++ operation_id node_id override uuid

-- The loop over the bytes of the name, up to the first ':'; `seen` holds the bytes passed.
unfoldable pub split_colon : GoString → GoString → GoString × GoString
split_colon seen [] = ([], seen)
split_colon seen (c ∷ rest) =
    if c == b':' then (seen, rest) else split_colon (seen ++ (c ∷ [])) rest

-- `strip` is the rest behind a prefix.
unfoldable pub strip : GoString → GoString → Option GoString
strip [] s = some s
strip (_ ∷ _) [] = none
strip (p ∷ ps) (c ∷ s) = if p == c then strip ps s else none

-- A name that is only the prefix is left whole.
unfoldable pub strip_operations : GoString → GoString
unfolding strip
strip_operations name =
    if ltb 11 (length name)
    then (elim (strip operation_prefix name) [ none ↦ name | some rest ↦ rest ])
    else name

unfoldable pub parse_operation_node_id : GoString → GoString × GoString
unfolding split_colon strip_operations
parse_operation_node_id name = split_colon [] (strip_operations name)
