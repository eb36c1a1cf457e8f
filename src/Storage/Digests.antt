-- ===== src/Storage/Digests.antt =====
-- pkg/storage/storage.go: `Digest`, the SDK's pair of a hash and a size.
-- Every digest in use was validated, or parsed from decimal digits: its size is not negative.
use go_rego.Base.{ℕ}
use go_rego.Base.Text.{GoString}

pub record Digest : Type 0 where
  pub hash : GoString
  pub size : ℕ
