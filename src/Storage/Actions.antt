-- ===== src/Storage/Actions.antt =====
-- pkg/storage/local.go: the action results on the local disk. A result is marshalled by
-- the protobuf library, which is an argument.
use go_rego.Base.{
  ℕ, true, false, Option, none, some, [], ◌∷◌, ltb, if◌then◌else◌, length, take, drop,
}
use go_rego.Base.Text.{GoString, codes}
use go_rego.Base.Results.{Result, ok, err}
use go_rego.Storage.Digests.{Digest}
use go_rego.Storage.Files.{File, FilePath, FileSystem, store_file}
use go_rego.Storage.Local.{LocalStore, PutFaults, ReadFaults, PutResult, open_file, cleaned, refuse}

-- `proto.Marshal` and `proto.Unmarshal`
pub record Codec (A : Type 0) : Type 0 where
  pub marshal : A → Result GoString
  pub unmarshal : GoString → Result A

unfoldable pub action_path : LocalStore → Digest → Option FilePath
action_path s digest =
    if ltb (length digest.hash) 4
    then none
    else some (
        s.root_dir
        ∷ codes "ac"
        ∷ take 2 digest.hash
        ∷ take 2 (drop 2 digest.hash)
        ∷ digest.hash
        ∷ [])

module _ {A : Type 0} (codec : Codec A) where
  unfoldable pub get_action_at : FileSystem → ReadFaults → FilePath → Result A
  unfolding open_file
  get_action_at files x path = elim (open_file files x path) [
    | err e ↦ err e
    | ok f ↦ codec.unmarshal f.contents
  ]

  unfoldable pub get_action_result :
      LocalStore → FileSystem → ReadFaults → Digest → Option (Result A)
  unfolding get_action_at
  get_action_result s files x digest = elim (action_path s digest) [
    | none ↦ none
    | some path ↦ some (get_action_at files x path)
  ]

  -- The errors of the operating system are not wrapped here, and the mode is left as it is.
  unfoldable pub update_action_at : PutFaults → FilePath → ℕ → A → FilePath → FileSystem → PutResult
  update_action_at x temp now result path files = elim (codec.marshal result) [
    | err e ↦ refuse files e
    | ok bytes ↦
        let f : File = record { contents = bytes; read_only = false; access_time = now } in
        let written = store_file files temp (some f) in
        elim x.mkdir_all [
          | some e ↦ refuse files e
          | none ↦ elim x.create_temp [
            | some e ↦ refuse files e
            | none ↦ elim x.write [
              | some (_, e) ↦ refuse (cleaned written x temp) e
              | none ↦ elim x.close [
                | some e ↦ refuse (cleaned written x temp) e
                | none ↦ elim x.rename [
                  | some e ↦ refuse (cleaned written x temp) e
                  | none ↦ record {
                    files = store_file (store_file written path (some f)) temp none;
                    error = none;
                    notified = true;
                  }
                ]
              ]
            ]
          ]
        ]
  ]

  unfoldable pub update_action_result :
      LocalStore → FileSystem → PutFaults → FilePath → ℕ → Digest → A → Option PutResult
  unfolding update_action_at
  update_action_result s files x temp now digest result = elim (action_path s digest) [
    | none ↦ none
    | some path ↦ some (update_action_at x temp now result path files)
  ]
