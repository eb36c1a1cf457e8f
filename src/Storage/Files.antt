-- ===== src/Storage/Files.antt =====
-- The files that pkg/storage/local.go works on. A path is the list of its parts; the parts are
-- non-empty and hold neither a '/' nor a dot alone, so that `filepath.Join` changes nothing.
use go_rego.Base.{ℕ, ◌≡◌, ◌↔◌, Bool, true, false, ◌&&◌, Option, List, [], ◌∷◌, if◌then◌else◌, arith}
use go_rego.Base.Text.{GoString, str_eq, str_eq_iff}
use go_rego.Base.Results.{Error}

pub record File : Type 0 where
  pub contents : GoString
  pub read_only : Bool
  pub access_time : ℕ

abbrev pub FilePath : Type 0
FilePath = List GoString

unfoldable pub path_eq : FilePath → FilePath → Bool
path_eq [] [] = true
path_eq [] (_ ∷ _) = false
path_eq (_ ∷ _) [] = false
path_eq (x ∷ xs) (y ∷ ys) = str_eq x y && path_eq xs ys

pub path_eq_iff : (p q : FilePath) → (path_eq p q ≡ true) ↔ (p ≡ q)
unfolding path_eq
path_eq_iff [] [] = ground arith
path_eq_iff [] (_ ∷ _) = ground arith
path_eq_iff (_ ∷ _) [] = ground arith
path_eq_iff (x ∷ xs) (y ∷ ys) = ground (arith, str_eq_iff x y, path_eq_iff xs ys)

abbrev pub FileSystem : Type 0
FileSystem = FilePath → Option File

abbrev pub store_file : FileSystem → FilePath → Option File → FileSystem
store_file files p f q = if path_eq p q then f else files q

-- An `io.Reader`: the bytes that it gives, and the error that ends them, none for `io.EOF`.
pub record Reader : Type 0 where
  pub bytes : GoString
  pub ends : Option Error
