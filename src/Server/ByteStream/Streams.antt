-- ===== src/Server/ByteStream/Streams.antt =====
-- pkg/server/bytestream.go: what `Read` sends and what `Write` gives to the store.
use go_rego.Base.{
  ℕ, zero, suc, ◌-◌, ◌≡◌, ◌≢◌, ◌≤◌, ◌<◌, ◌∙◌, refl, ap, Bool, true, false, none, some, List, [],
  ◌∷◌, ◌++◌, leb, ◌==◌, min, length, take, drop, length-drop, length-take, sym, arith, Bool-cases,
  inl, inr,
}
use go_rego.Base.Lists.{All}
use go_rego.Base.Text.{GoString, str_eq, str_eq_iff}
use go_rego.Base.Results.{Code, Error, status, Result, ok}
use go_rego.Storage.Digests.{Digest}
use go_rego.Storage.Files.{Reader}
use go_rego.Proxy.Store.{Upload}
use go_rego.Server.ByteStream.{
  read_loop, read_buffer_size, ReadRequest, read, skip, limit_of, parse_resource_name, WriteRequest,
  Written, refused, hung, committed, Ending, payload, finish_write, write_blob, write,
}

abbrev pub joined : List GoString → GoString
joined [] = []
joined (c ∷ cs) = c ++ joined cs

-- A chunk has at least one byte, and fits the buffer.
abbrev pub IsChunk : GoString → Type 0
IsChunk c = (0 < length c) × (length c ≤ read_buffer_size)

take-nil : (n : ℕ) → take {A = ℕ} n [] ≡ []
take-nil zero = refl
take-nil (suc n) = refl

-- A piece of at most `left` bytes, and what is left of the rest.
take-piece :
    (n left : ℕ) (s : GoString)
    → n ≤ left
    → take n s ++ take (left - min n (length s)) (drop n s) ≡ take left s
take-piece zero left s le = ap (λ k. take k s) (omega arith)
take-piece (suc n) left [] le = take-nil (left - min (suc n) 0) ∙ sym (take-nil left)
take-piece (suc n) zero (c ∷ s) le = absurd (omega arith)
take-piece (suc n) (suc left) (c ∷ s) le =
    ap (λ k. c ∷ (take n s ++ take k (drop n s))) (omega arith)
    ∙ ap (λ t. c ∷ t) (take-piece n left s (omega arith))

piece-IsChunk :
    (size left : ℕ) (c : ℕ) (s : GoString)
    → ¬ (left ≡ 0)
    → IsChunk (take (min (min read_buffer_size left) (suc size)) (c ∷ s))
piece-IsChunk size left c s ne =
    let n = length-take (min (min read_buffer_size left) (suc size)) (c ∷ s) in
    (omega (arith, n), omega (arith, n))

read_loop-joined :
    (sizes : ℕ → ℕ) (fuel k left : ℕ) (bytes : GoString)
    → length bytes < fuel
    → let sent = read_loop sizes (λ i. none) fuel k left (record { bytes = bytes; ends = none }) in
      (joined sent.0 ≡ take left bytes) × (sent.1 ≡ none) × All IsChunk sent.0
unfolding read_loop
read_loop-joined sizes zero k left bytes room = absurd (omega arith)
read_loop-joined sizes (suc fuel) k left [] room = elim (Bool-cases (left == 0)) [
  | inl e ↦ rw e ((sym (take-nil left), refl, tt))
  | inr e ↦ rw e ((sym (take-nil left), refl, tt))
]
read_loop-joined sizes (suc fuel) k left (c ∷ s) room = elim (Bool-cases (left == 0)) [
  | inl e ↦ let none_left : left ≡ 0 = ground arith in rw (e, none_left) ((refl, refl, tt))
  | inr e ↦
      let n = min (min read_buffer_size left) (suc (sizes k)) in
      let shorter = length-drop n (c ∷ s) in
      let more : ¬ (left ≡ 0) = ground arith in
      let (all, fine, chunks) =
        read_loop-joined sizes fuel (suc k) (left - min n (length (c ∷ s))) (drop n (c ∷ s))
          (omega (arith, shorter, room, more)) in
      rw e (
        (
          ap (λ t. take n (c ∷ s) ++ t) all ∙ take-piece n left (c ∷ s) (omega arith),
          fine,
          (piece-IsChunk (sizes k) left c s more, chunks),
        ))
]

-- A `Read` of a blob that the store holds sends the bytes from the offset on, up to the limit where
-- one is set, in chunks that are not empty and fit the buffer, however few bytes each call of the
-- reader gives, and ends without an error. (The name is that of an uncompressed blob, the reader ends
-- without an error, the offset is within the blob, and no send fails.)
pub read-sent :
    (get : Digest → Result (Reader × Bool)) (encode : Reader → Reader) (sizes : ℕ → ℕ)
    (req : ReadRequest) (digest : Digest) (bytes : GoString) (seekable : Bool)
    → parse_resource_name req.resource_name false ≡ ok (digest, false)
    → get digest ≡ ok (record { bytes = bytes; ends = none }, seekable)
    → req.read_offset ≤ length bytes
    → let sent = read get encode sizes (λ k. none) req in
      (joined sent.0 ≡ take (limit_of req.read_limit) (drop req.read_offset bytes))
      × (sent.1 ≡ none)
      × All IsChunk sent.0
unfolding read skip
read-sent get encode sizes req digest bytes seekable named held within =
    let inside : leb req.read_offset (length bytes) ≡ true = ground arith in
    let rest = drop req.read_offset bytes in
    rw (named, read, held, skip, inside)
      (read_loop-joined sizes (suc (length rest)) 0 (limit_of req.read_limit) rest (omega arith))

-- The messages of an upload: those that do not finish it, the one that does, and what comes after it.
abbrev pub messages :
    List WriteRequest → WriteRequest → List (Result WriteRequest) → List (Result WriteRequest)
messages [] last after = ok last ∷ after
messages (req ∷ reqs) last after = ok req ∷ messages reqs last after

abbrev pub first_message : List WriteRequest → WriteRequest → WriteRequest
first_message [] last = last
first_message (req ∷ reqs) last = req

-- The bytes of all messages, in order.
abbrev pub message_bytes : List WriteRequest → WriteRequest → GoString
message_bytes [] last = last.bytes
message_bytes (req ∷ reqs) last = req.bytes ++ message_bytes reqs last

payload-messages :
    (reqs : List WriteRequest) (last : WriteRequest) (after : List (Result WriteRequest))
    → All (λ req. req.finish_write ≡ false) reqs
    → last.finish_write ≡ true
    → payload (messages reqs last after) ≡ (message_bytes reqs last, none)
unfolding payload
payload-messages [] last after h end = rw (end, payload) refl
payload-messages (req ∷ reqs) last after (h, hs) end =
    rw (h, payload, payload-messages reqs last after hs end) refl

module _ {S : Type 0} (put : S → Digest → Bool → Reader → Upload S) (ending : Ending) where
  write-one :
      (s : S) (req : WriteRequest) (reqs : List (Result WriteRequest)) (digest : Digest)
      (compressed : Bool) (all : GoString)
      → req.resource_name ≢ []
      → req.write_offset ≡ 0
      → parse_resource_name req.resource_name true ≡ ok (digest, compressed)
      → payload (ok req ∷ reqs) ≡ (all, none)
      → let up = put s digest compressed (record { bytes = all; ends = none }) in
        write put ending s (ok req ∷ reqs) ≡ (up.state, finish_write put ending up (all, none))
  unfolding write write_blob
  write-one s req reqs digest compressed all full start parsed sent =
      let named : str_eq req.resource_name [] ≡ false =
        ground (arith, str_eq_iff req.resource_name []) in
      rw (write, named, start, parsed) (ap (write_blob put ending s digest compressed) sent)

  write-payload :
      (s : S) (reqs : List WriteRequest) (last : WriteRequest) (after : List (Result WriteRequest))
      (digest : Digest) (compressed : Bool)
      → All (λ req. req.finish_write ≡ false) reqs
      → last.finish_write ≡ true
      → (first_message reqs last).resource_name ≢ []
      → (first_message reqs last).write_offset ≡ 0
      → parse_resource_name (first_message reqs last).resource_name true ≡ ok (digest, compressed)
      → let all = message_bytes reqs last in
        let up = put s digest compressed (record { bytes = all; ends = none }) in
        write put ending s (messages reqs last after)
        ≡ (up.state, finish_write put ending up (all, none))
  write-payload s [] last after digest compressed h end full start parsed =
      write-one s last after digest compressed _ full start parsed
        (payload-messages [] last after h end)
  write-payload s (req ∷ reqs) last after digest compressed h end full start parsed =
      write-one s req _ digest compressed _ full start parsed
        (payload-messages (req ∷ reqs) last after h end)

  -- How the call ends for a `Put` that took `all` of the bytes, or not.
  pub record Ends (up : Upload S) (all : GoString) (result : S × Written) : Type 0 where
    pub commits :
        length all ≤ up.consumed
        → ending.canceled ≡ none
        → up.error ≡ none
        → ending.closing ≡ none
        → result ≡ (up.state, committed (length all))
    pub unanswered :
        (e : Error)
        → length all ≤ up.consumed
        → ending.canceled ≡ none
        → up.error ≡ none
        → ending.closing ≡ some e
        → result ≡ (up.state, refused e)
    pub fails :
        (e : Error)
        → length all ≤ up.consumed
        → ending.canceled ≡ none
        → up.error ≡ some e
        → result ≡ (up.state, refused (status Code.internal))
    pub cancels :
        (e : Error)
        → length all ≤ up.consumed
        → ending.canceled ≡ some e
        → result ≡ (up.state, refused e)
    pub hangs : up.consumed < length all → result ≡ (up.state, hung)

  finish_write-Ends :
      (up : Upload S) (all : GoString)
      → Ends up all (up.state, finish_write put ending up (all, none))
  unfolding finish_write
  finish_write-Ends up all = record {
    commits = λ a c e f. ground arith;
    unanswered = λ er a c e f. ground arith;
    fails = λ er a c e. ground arith;
    cancels = λ er a c. ground arith;
    hangs = λ few. ground arith;
  }

  -- Of an upload whose last message finishes it, and no earlier one does, `Write` gives the bytes of
  -- all its messages, in order, to the store's `Put`, with a reader that ends without an error; the
  -- names and offsets of the later messages, and what comes after the last one, are not looked at.
  -- If `Put` takes all bytes, the call commits their number, but gives an internal error where `Put`
  -- gives one, and the context's or the stream's own error where the context ends the wait or the
  -- answer cannot be sent; if `Put` returns before it has taken all, the call never returns. (The
  -- first message has a resource name that parses, and offset 0.)
  pub write-messages :
      (s : S) (reqs : List WriteRequest) (last : WriteRequest) (after : List (Result WriteRequest))
      (digest : Digest) (compressed : Bool)
      → All (λ req. req.finish_write ≡ false) reqs
      → last.finish_write ≡ true
      → (first_message reqs last).resource_name ≢ []
      → (first_message reqs last).write_offset ≡ 0
      → parse_resource_name (first_message reqs last).resource_name true ≡ ok (digest, compressed)
      → let all = message_bytes reqs last in
        Ends
          (put s digest compressed (record { bytes = all; ends = none }))
          all
          (write put ending s (messages reqs last after))
  write-messages s reqs last after digest compressed h end full start parsed =
      rw (write-payload s reqs last after digest compressed h end full start parsed)
        (finish_write-Ends _ _)
