-- ===== src/Worker/Framing/Streams.antt =====
-- pkg/execution/persistent.go: what the reader of a stream of frames gets.
use go_rego.Base.{
  ℕ, zero, suc, ◌%◌, ◌<◌, ◌≤◌, ◌≡◌, refl, ap, ◌∙◌, sym, Option, none, some, List, [], ◌∷◌, ◌++◌,
  length, take, drop, arith, length-append, append_assoc, append-nil, inl, inr, Option-cases, ◌≢◌,
}
use go_rego.Base.Text.{GoString}
use go_rego.Base.Results.{Error, Result, ok, err}
use go_rego.Worker.Framing.{
  u32_mod, put_uint32, get_uint32, Accepts, write_bytes, write_proto, read_full, read_proto,
  next_write, next_read,
}

-- A pipe that takes every write.
abbrev pub accepts_all : Accepts
accepts_all taken chunk = none

pub get_uint32-put_uint32 : (n : ℕ) → get_uint32 (put_uint32 n) ≡ n % u32_mod
unfolding get_uint32 put_uint32
get_uint32-put_uint32 n = omega arith

take-append : (xs ys : GoString) (n : ℕ) → n ≤ length xs → take n (xs ++ ys) ≡ take n xs
take-append xs ys zero h = refl
take-append [] ys (suc n) h = absurd (omega arith)
take-append (x ∷ xs) ys (suc n) h = ap (λ t. x ∷ t) (take-append xs ys n (omega arith))

take-length : (xs : GoString) → take (length xs) xs ≡ xs
take-length [] = refl
take-length (x ∷ xs) = ap (λ t. x ∷ t) (take-length xs)

drop-append : (xs ys : GoString) → drop (length xs) (xs ++ ys) ≡ ys
drop-append [] ys = refl
drop-append (x ∷ xs) ys = drop-append xs ys

read_full-within :
    (n : ℕ) (stream : GoString)
    → n ≤ length stream
    → read_full n stream ≡ (drop n stream, ok (take n stream))
unfolding read_full
read_full-within n stream h = ground arith

-- A frame as `write_proto` leaves it on a pipe that takes it.
abbrev pub frame : GoString → GoString
frame message = put_uint32 (length message) ++ message

pub write_proto-frame :
    (taken message : GoString)
    → write_proto accepts_all taken (ok message) ≡ (taken ++ frame message, none)
unfolding write_proto write_bytes
write_proto-frame taken message =
    ap (λ t. (t, none)) (append_assoc taken (put_uint32 (length message)) message)

-- A write without an error has put the whole frame on the pipe.
pub write_proto-whole :
    (accepts : Accepts) (taken bytes : GoString) (encoded : Result GoString)
    → write_proto accepts taken encoded ≡ (bytes, none)
    → (message : GoString) × (encoded ≡ ok message) × (bytes ≡ taken ++ frame message)
unfolding write_proto write_bytes
write_proto-whole accepts taken bytes (err e) h = absurd (cc)
write_proto-whole accepts taken bytes (ok message) h =
    let size = put_uint32 (length message) in
    elim (Option-cases (accepts taken size)) [
      | inr (a, e) ↦ absurd (wrong bytes (rw (e, write_proto, write_bytes) at h))
      | inl e ↦ elim (Option-cases (accepts (taken ++ size) message)) [
        | inr (a, e2) ↦ absurd (wrong bytes (rw (e, write_proto, write_bytes, e2) at h))
        | inl e2 ↦
            let same : Same ((taken ++ size) ++ message, none) (bytes, none) =
              rw (e, write_proto, write_bytes, e2) at h in
            (message, refl, sym (ap (λ r. r.0) same) ∙ append_assoc taken size message)
      ]
    ]
  where
    Same : GoString × Option Error → GoString × Option Error → Type 0
    Same a b = a ≡ b

    wrong :
        {a : GoString} {e : Error} (b : GoString)
        → ◌≢◌ {A = GoString × Option Error} (a, some e) (b, none)
    wrong b h = cc

read_full-header :
    (n : ℕ) (rest : GoString) → read_full 4 (put_uint32 n ++ rest) ≡ (rest, ok (put_uint32 n))
unfolding put_uint32
read_full-header n rest = read_full-within 4 (put_uint32 n ++ rest) (omega arith)

read_proto-parts :
    {M : Type 0} (unmarshal : GoString → Result M) (stream size rest rest1 body : GoString)
    → read_full 4 stream ≡ (rest, ok size)
    → read_full (get_uint32 size) rest ≡ (rest1, ok body)
    → read_proto unmarshal stream ≡ (rest1, unmarshal body)
unfolding read_proto
read_proto-parts unmarshal stream size rest rest1 body h b =
    ap
      (next_read
        (λ r n. next_read (λ r1 message. (r1, unmarshal message)) (read_full (get_uint32 n) r)))
      h
    ∙ ap (next_read (λ r1 message. (r1, unmarshal message))) b

read_proto-frame :
    {M : Type 0} (unmarshal : GoString → Result M) (message rest : GoString)
    → read_proto unmarshal (frame message ++ rest) ≡ (
      drop (length message % u32_mod) (message ++ rest),
      unmarshal (take (length message % u32_mod) message),
    )
read_proto-frame unmarshal message rest =
    let size : ℕ = length message % u32_mod in
    let fits : size ≤ length message = omega arith in
    let fits_all : size ≤ length (message ++ rest) = omega (arith, length-append message rest) in
    read_proto-parts unmarshal (frame message ++ rest) (put_uint32 (length message))
      (message ++ rest) (drop size (message ++ rest)) (take size message)
      (ap (λ t. read_full 4 t) (append_assoc (put_uint32 (length message)) message rest)
        ∙ read_full-header (length message) (message ++ rest))
      (ap (λ n. read_full n (message ++ rest)) (get_uint32-put_uint32 (length message))
        ∙ read_full-within size (message ++ rest) fits_all
        ∙ ap (λ t. (drop size (message ++ rest), ok t)) (take-append message rest size fits))

read_proto-frame_short :
    {M : Type 0} (unmarshal : GoString → Result M) (message rest : GoString)
    → length message < u32_mod
    → read_proto unmarshal (frame message ++ rest) ≡ (rest, unmarshal message)
read_proto-frame_short unmarshal message rest h =
    let whole : length message % u32_mod ≡ length message = omega arith in
    read_proto-frame unmarshal message rest
    ∙ ap (λ n. (drop n (message ++ rest), unmarshal (take n message))) whole
    ∙ ap (λ r. (r, unmarshal (take (length message) message))) (drop-append message rest)
    ∙ ap (λ b. (rest, unmarshal b)) (take-length message)

-- A sender that writes one message after the other, and stops at an error.
abbrev pub write_all :
    {M : Type 0} → Accepts → (M → Result GoString) → GoString → List M → GoString × Option Error
write_all accepts marshal taken [] = (taken, none)
write_all accepts marshal taken (m ∷ ms) =
    next_write (λ t. write_all accepts marshal t ms) (write_proto accepts taken (marshal m))

-- A receiver that reads so many messages.
abbrev pub read_all :
    {M : Type 0} → (GoString → Result M) → ℕ → GoString → GoString × Result (List M)
read_all unmarshal zero stream = (stream, ok [])
read_all unmarshal (suc n) stream =
    next_read (λ rest m. next_read (λ rest1 ms. (rest1, ok (m ∷ ms))) (read_all unmarshal n rest))
      (read_proto unmarshal stream)

-- What the messages look like on the wire; `bytes` are their encodings.
abbrev pub frames : List GoString → GoString
frames [] = []
frames (b ∷ bs) = frame b ++ frames bs

-- The encodings of the messages, each below 2^32 bytes and read back as the message.
abbrev pub Encoded :
    {M : Type 0} → (M → Result GoString) → (GoString → Result M) → List M → List GoString → Type 0
Encoded marshal unmarshal [] bs = bs ≡ []
Encoded marshal unmarshal (m ∷ ms) bs =
    (b : GoString) × (rest : List GoString) × (bs ≡ b ∷ rest)
    × (marshal m ≡ ok b)
    × (unmarshal b ≡ ok m)
    × (length b < u32_mod)
    × Encoded marshal unmarshal ms rest

module _ {M : Type 0} (marshal : M → Result GoString) (unmarshal : GoString → Result M) where
  write_all-frames :
      (ms : List M) (bs : List GoString) (taken : GoString)
      → Encoded marshal unmarshal ms bs
      → write_all accepts_all marshal taken ms ≡ (taken ++ frames bs, none)
  write_all-frames [] bs taken h = rw h (ap (λ t. (t, none)) (sym (append-nil taken)))
  write_all-frames (m ∷ ms) bs taken (b, rest, e, enc, dec, short, more) =
      ap
        (λ r.
          next_write (λ t. write_all accepts_all marshal t ms) (write_proto accepts_all taken r))
        enc
      ∙ ap (next_write (λ t. write_all accepts_all marshal t ms)) (write_proto-frame taken b)
      ∙ write_all-frames ms rest (taken ++ frame b) more
      ∙ ap (λ t. (t, none))
          (append_assoc taken (frame b) (frames rest) ∙ ap (λ l. taken ++ frames l) (sym e))

  read_all-frames :
      (ms : List M) (bs : List GoString) (rest : GoString)
      → Encoded marshal unmarshal ms bs
      → read_all unmarshal (length ms) (frames bs ++ rest) ≡ (rest, ok ms)
  read_all-frames [] bs rest h = rw h
  read_all-frames (m ∷ ms) bs rest (b, others, e, enc, dec, short, more) =
      let keep =
        next_read {A = M}
          (λ r x. next_read (λ r1 xs. (r1, ok (x ∷ xs))) (read_all unmarshal (length ms) r)) in
      ap (λ l. read_all unmarshal (length (m ∷ ms)) (frames l ++ rest)) e
      ∙ ap (λ t. keep (read_proto unmarshal t)) (append_assoc (frame b) (frames others) rest)
      ∙ ap keep (read_proto-frame_short unmarshal b (frames others ++ rest) short)
      ∙ ap (λ r. keep (frames others ++ rest, r)) dec
      ∙ ap (next_read (λ r1 xs. (r1, ok (m ∷ xs)))) (read_all-frames ms others rest more)

  -- Messages that are written one after the other to a pipe that takes every write are read back, in
  -- that order, and what follows them is left: the messages whose encoding is decoded to the message
  -- and has less than 2^32 bytes.
  pub read_all-write_all :
      (ms : List M) (bs : List GoString) (rest : GoString)
      → Encoded marshal unmarshal ms bs
      → ((write_all accepts_all marshal [] ms).1 ≡ none)
        × (read_all unmarshal (length ms) ((write_all accepts_all marshal [] ms).0 ++ rest)
            ≡ (rest, ok ms))
  read_all-write_all ms bs rest h =
      let written = write_all-frames ms bs [] h in
      (ap (λ r. r.1) written, rw (ap (λ r. r.0) written) (read_all-frames ms bs rest h))

-- The reader takes so many bytes of a message as its length leaves modulo 2^32, and the rest of the
-- message stays in the stream, for any message and whatever follows it.
pub read_proto-write_proto :
    {M : Type 0} (unmarshal : GoString → Result M) (message rest : GoString)
    → read_proto unmarshal ((write_proto accepts_all [] (ok message)).0 ++ rest) ≡ (
      drop (length message % u32_mod) (message ++ rest),
      unmarshal (take (length message % u32_mod) message),
    )
read_proto-write_proto unmarshal message rest =
    ap (λ r. read_proto unmarshal (r.0 ++ rest)) (write_proto-frame [] message)
    ∙ read_proto-frame unmarshal message rest
