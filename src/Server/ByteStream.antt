-- ===== src/Server/ByteStream.antt =====
-- pkg/server/bytestream.go: resource names, `Read` and `Write`. The store's answers and the zstd coder
-- are arguments. Offsets and limits are not negative, and 0 stands for one that is not set.
pub mod Streams
pub mod Downloads
mod Examples
use go_rego.Base.{
  ℕ, zero, suc, ◌+◌, ◌-◌, ◌*◌, ◌^◌, ◌≡◌, Bool, true, false, not, ◌&&◌, ◌||◌, Option, none, some,
  List, [], ◌∷◌, ◌++◌, ltb, leb, ◌==◌, min, if◌then◌else◌, length, take, drop,
}
use go_rego.Base.Text.{GoString, codes, str_eq}
use go_rego.Base.Results.{Code, Error, status, not_exist, wrapped, Result, ok, err}
use go_rego.Storage.Digests.{Digest}
use go_rego.Storage.Files.{Reader}
use go_rego.Proxy.Store.{Upload, closed_pipe}

-- The parts of a name between slashes, the last one first.
unfoldable pub segments : GoString → List GoString → GoString → List GoString
segments part before [] = part ∷ before
segments part before (c ∷ rest) = elim (c == b'/') [
  | true ↦ segments [] (part ∷ before) rest
  | false ↦ segments (part ++ (c ∷ [])) before rest
]

abbrev pub is_digit : ℕ → Bool
is_digit c = leb b'0' c && leb c b'9'

abbrev pub is_hex : ℕ → Bool
is_hex c = is_digit c || (leb b'a' c && leb c b'f') || (leb b'A' c && leb c b'F')

abbrev pub every : (ℕ → Bool) → GoString → Bool
every test [] = true
every test (c ∷ s) = test c && every test s

-- One or more bytes of a class.
abbrev pub some_of : (ℕ → Bool) → GoString → Bool
some_of test [] = false
some_of test (c ∷ s) = test c && every test s

unfoldable pub decimal : ℕ → GoString → ℕ
decimal n [] = n
decimal n (c ∷ s) = decimal (n * 10 + (c - b'0')) s

-- `uploads/[^/]+/` in front, where a write asks for it.
abbrev pub is_upload : List GoString → Bool
is_upload ((_ ∷ _) ∷ (word ∷ _)) = str_eq word (codes "uploads")
is_upload _ = false

-- Whether the type says that the blob is compressed; `none` where there is no such type.
abbrev pub resource_type : Bool → List GoString → Option Bool
resource_type is_write [] = none
resource_type is_write (word ∷ before) =
    if str_eq word (codes "blobs") && (not is_write || is_upload before)
    then some false
    else (elim before [
      | [] ↦ none
      | outer ∷ rest ↦
          if str_eq word (codes "zstd")
            && str_eq outer (codes "compressed-blobs")
            && (not is_write || is_upload rest)
          then some true
          else none
    ])

abbrev pub parse_segments : Bool → List GoString → Result (Digest × Bool)
parse_segments is_write (size ∷ (hash ∷ before)) = elim (resource_type is_write before) [
  | none ↦ err (status Code.invalid_argument)
  | some compressed ↦
      if some_of is_digit size && some_of is_hex hash && ltb (decimal 0 size) (2 ^ 63)
      then ok (record { hash = hash; size = decimal 0 size }, compressed)
      else err (status Code.invalid_argument)
]
parse_segments is_write _ = err (status Code.invalid_argument)

unfoldable pub parse_resource_name : GoString → Bool → Result (Digest × Bool)
unfolding segments decimal
parse_resource_name name is_write = parse_segments is_write (segments [] [] name)

abbrev pub read_buffer_size : ℕ
read_buffer_size = 65536

-- The loop of `Read`: the chunks that are sent, and the error. `left` is what the limit leaves,
-- `sizes` bounds what each call of the reader gives, and `sends` has the errors of the stream.
unfoldable pub read_loop :
    (ℕ → ℕ) → (ℕ → Option Error) → (fuel k left : ℕ) → Reader → List GoString × Option Error
read_loop sizes sends zero k left reader = ([], none)
read_loop sizes sends (suc fuel) k left reader =
    let n = min (min read_buffer_size left) (suc (sizes k)) in
    let rest =
      read_loop sizes sends fuel (suc k) (left - min n (length reader.bytes))
        (record reader { bytes = drop n reader.bytes }) in
    if left == 0 then ([], none) else (elim reader.bytes [
      | [] ↦ ([], elim reader.ends [ none ↦ none | some _ ↦ some (status Code.internal) ])
      | _ ∷ _ ↦ elim (sends k) [
        | some e ↦ ([], some e)
        | none ↦ (take n reader.bytes ∷ rest.0, rest.1)
      ]
    ])

pub record ReadRequest : Type 0 where
  pub resource_name : GoString
  pub read_offset : ℕ
  pub read_limit : ℕ

-- `status.Code` looks through wrapped errors, `os.IsNotExist` does not.
abbrev pub has_not_found : Error → Bool
has_not_found (status Code.not_found) = true
has_not_found (wrapped e) = has_not_found e
has_not_found _ = false

abbrev pub is_missing : Error → Bool
is_missing not_exist = true
is_missing e = has_not_found e

abbrev pub limit_of : ℕ → ℕ
limit_of zero = 2 ^ 63 - 1
limit_of (suc n) = suc n

-- Skipping beyond the end is an error, but for a reader that can seek.
unfoldable pub skip : Bool → ℕ → Reader → Result Reader
skip seekable offset reader =
    if leb offset (length reader.bytes) || seekable
    then ok (record reader { bytes = drop offset reader.bytes })
    else err (status Code.internal)

unfoldable pub read :
    (Digest → Result (Reader × Bool))
    → (Reader → Reader)
    → (ℕ → ℕ)
    → (ℕ → Option Error)
    → ReadRequest
    → List GoString × Option Error
unfolding read_loop skip
read get encode sizes sends req = elim (parse_resource_name req.resource_name false) [
  | err e ↦ ([], some e)
  | ok (digest, compressed) ↦ elim (get digest) [
    | err e ↦ ([], some (status (if is_missing e then Code.not_found else Code.internal)))
    | ok (blob, seekable) ↦
        let reader = if compressed then encode blob else blob in
        elim (skip (seekable && not compressed) req.read_offset reader) [
          | err e ↦ ([], some e)
          | ok rest ↦
              read_loop sizes sends (suc (length rest.bytes)) 0 (limit_of req.read_limit) rest
        ]
  ]
]

pub record WriteRequest : Type 0 where
  pub resource_name : GoString
  pub write_offset : ℕ
  pub bytes : GoString
  pub finish_write : Bool

-- How `Write` ends. It is `hung` when a write to its pipe never returns.
pub data Written : Type 0 where
  refused : Error → Written
  hung : Written
  committed : ℕ → Written

-- The bytes of the messages up to the last one, and the error of `Recv`; the list ends with `io.EOF`.
unfoldable pub payload : List (Result WriteRequest) → GoString × Option Error
payload [] = ([], none)
payload (err e ∷ _) = ([], some e)
payload (ok req ∷ reqs) =
    let rest = payload reqs in
    if req.finish_write then (req.bytes, none) else (req.bytes ++ rest.0, rest.1)

-- What the store's `Put` reads: the pipe is closed with an error when `Recv` gives one.
abbrev pub piped_payload : GoString × Option Error → Reader
piped_payload (bytes, none) = record { bytes = bytes; ends = none }
piped_payload (bytes, some _) = record { bytes = bytes; ends = some closed_pipe }

-- What ends a call: the error of the context, where the wait takes that branch, and of `SendAndClose`.
pub record Ending : Type 0 where
  pub canceled : Option Error
  pub closing : Option Error

module _ {S : Type 0} (put : S → Digest → Bool → Reader → Upload S) (ending : Ending) where
  -- The wait for `Put` or for the end of the context, and the answer.
  abbrev pub await_put : Upload S → ℕ → Written
  await_put up total = elim ending.canceled [
    | some e ↦ refused e
    | none ↦ elim up.error [
      | some _ ↦ refused (status Code.internal)
      | none ↦ elim ending.closing [ some e ↦ refused e | none ↦ committed total ]
    ]
  ]

  -- Nobody reads the pipe once `Put` has returned.
  unfoldable pub finish_write : Upload S → GoString × Option Error → Written
  finish_write up (bytes, error) =
      if ltb up.consumed (length bytes)
      then hung
      else (elim error [ some e ↦ refused e | none ↦ await_put up (length bytes) ])

  -- The `Put` in the background, and the end of the call.
  unfoldable pub write_blob : S → Digest → Bool → GoString × Option Error → S × Written
  unfolding finish_write
  write_blob s digest compressed sent =
      let up = put s digest compressed (piped_payload sent) in (up.state, finish_write up sent)

  unfoldable pub write : S → List (Result WriteRequest) → S × Written
  unfolding payload write_blob
  write s [] = (s, refused (status Code.invalid_argument))
  write s (err e ∷ _) = (s, refused e)
  write s (ok req ∷ reqs) =
      let sent = payload (ok req ∷ reqs) in
      if str_eq req.resource_name []
      then (s, refused (status Code.invalid_argument))
      else (if ltb 0 req.write_offset
          then (s, refused (status Code.invalid_argument))
          else (elim (parse_resource_name req.resource_name true) [
            | err e ↦ (s, refused e)
            | ok (digest, compressed) ↦ write_blob s digest compressed sent
          ]))
