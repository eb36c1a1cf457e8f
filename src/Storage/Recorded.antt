-- ===== src/Storage/Recorded.antt =====
-- pkg/storage/local.go: the action result that is read after an update.
use go_rego.Base.{ℕ, ◌≡◌, ◌≢◌, ◌∙◌, refl, false, Option, none, some, inl, inr, Option-cases}
use go_rego.Base.Text.{GoString}
use go_rego.Base.Results.{Error, ok}
use go_rego.Storage.Digests.{Digest}
use go_rego.Storage.Files.{File, FilePath, FileSystem, store_file}
use go_rego.Storage.Local.{LocalStore, PutFaults, ReadFaults, PutResult, open_file}
use go_rego.Storage.Atomicity.{store_file-here, store_file-other}
use go_rego.Storage.Actions.{
  Codec, action_path, get_action_at, get_action_result, update_action_at, update_action_result,
}

module _ {A : Type 0} (codec : Codec A) where
  update_action_at-files :
      (x : PutFaults) (temp path : FilePath) (now : ℕ) (result : A) (bytes : GoString)
      (files : FileSystem)
      → path ≢ temp
      → codec.marshal result ≡ ok bytes
      → (update_action_at codec x temp now result path files).error ≡ none
      → (f : File) × ((update_action_at codec x temp now result path files).files path ≡ some f)
        × (f.contents ≡ bytes)
  unfolding update_action_at
  update_action_at-files x temp path now result bytes files ne coded success =
      elim (Option-cases x.mkdir_all) [
        | inr (er, e) ↦ absurd (wrong (rw (coded, e, update_action_at) at success))
        | inl e ↦ elim (Option-cases x.create_temp) [
          | inr (er, c) ↦ absurd (wrong (rw (coded, e, c, update_action_at) at success))
          | inl c ↦ elim (Option-cases x.write) [
            | inr ((n, er), w) ↦ absurd (wrong (rw (coded, e, c, w, update_action_at) at success))
            | inl w ↦ elim (Option-cases x.close) [
              | inr (er, k) ↦ absurd (wrong (rw (coded, e, c, w, k, update_action_at) at success))
              | inl k ↦ elim (Option-cases x.rename) [
                | inr (er, r) ↦
                    absurd (wrong (rw (coded, e, c, w, k, r, update_action_at) at success))
                | inl r ↦
                    rw (coded, e, c, w, k, r, update_action_at)
                      (
                        f,
                        store_file-other (store_file written path (some f)) temp path none ne
                            ∙ store_file-here written path (some f),
                        refl,
                      )
              ]
            ]
          ]
        ]
      ]
    where
      f : File
      f = record { contents = bytes; read_only = false; access_time = now }

      written : FileSystem
      written = store_file files temp (some f)

      wrong : {er : Error} → ◌≢◌ {A = Option Error} (some er) none
      wrong e = cc

  -- After an `UpdateActionResult` without an error, `GetActionResult` gives the result that was
  -- stored, if the file can be opened. (The library reads back what it has marshalled, and the
  -- temporary name is not the result's.)
  pub update-get_action_result :
      (s : LocalStore) (files : FileSystem) (x : PutFaults) (y : ReadFaults) (temp path : FilePath)
      (now : ℕ) (digest : Digest) (result : A) (bytes : GoString) (r : PutResult)
      → codec.marshal result ≡ ok bytes
      → codec.unmarshal bytes ≡ ok result
      → action_path s digest ≡ some path
      → path ≢ temp
      → update_action_result codec s files x temp now digest result ≡ some r
      → r.error ≡ none
      → y.opening ≡ none
      → get_action_result codec s r.files y digest ≡ some (ok result)
  unfolding get_action_result update_action_result get_action_at open_file
  update-get_action_result s files x y temp path now digest result bytes r coded decoded at ne h
        success opens =
      let same : ◌≡◌ {A = Option PutResult}
          (some (update_action_at codec x temp now result path files)) (some r) =
        rw (at, update_action_result) at h in
      let made : update_action_at codec x temp now result path files ≡ r = cc in
      let (f, here, kept) =
        update_action_at-files x temp path now result bytes files ne coded
          (rw (← made) at success) in
      let there : r.files path ≡ some f = rw (← made) here in
      rw (at, get_action_result, get_action_at, open_file, opens, there, kept, decoded) refl
