-- ===== src/Worker/Framing.antt =====
-- pkg/execution/persistent.go: the frames of the persistent worker protocol, `writeProto` and
-- `readProto`. The encoding of the messages is a parameter; a pipe may take a part of a write only.
pub mod Streams
use go_rego.Base.{
  ℕ, zero, suc, ◌+◌, ◌*◌, ◌/◌, ◌%◌, ◌^◌, Option, none, some, List, [], ◌∷◌, ◌++◌, length, take,
  drop, ltb, if◌then◌else◌,
}
use go_rego.Base.Text.{GoString}
use go_rego.Base.Results.{Error, plain, Result, ok, err}

abbrev pub u32_mod : ℕ
u32_mod = 2 ^ 32

-- `binary.LittleEndian.PutUint32` of `uint32(n)`.
unfoldable pub put_uint32 : ℕ → GoString
put_uint32 n =
    (n % 256) ∷ (((n / 256) % 256) ∷ (((n / 65536) % 256) ∷ (((n / 16777216) % 256) ∷ [])))

-- `binary.LittleEndian.Uint32`; the reader has read four bytes.
unfoldable pub get_uint32 : GoString → ℕ
get_uint32 (a ∷ (b ∷ (c ∷ (d ∷ [])))) = a + b * 256 + c * 65536 + d * 16777216
get_uint32 _ = 0

-- What the pipe does with a write, after what it has taken so far: all of it, or some bytes and an error.
abbrev pub Accepts : Type 0
Accepts = (taken chunk : GoString) → Option (ℕ × Error)

unfoldable pub write_bytes : Accepts → GoString → GoString → GoString × Option Error
write_bytes accepts taken chunk = elim (accepts taken chunk) [
  | none ↦ (taken ++ chunk, none)
  | some (n, e) ↦ (taken ++ take n chunk, some e)
]

-- The next write, unless one failed.
abbrev pub next_write :
    (GoString → GoString × Option Error) → GoString × Option Error → GoString × Option Error
next_write more (taken, none) = more taken
next_write more (taken, some e) = (taken, some e)

-- The two writes of `writeProto`, after `proto.Marshal`.
unfoldable pub write_proto : Accepts → GoString → Result GoString → GoString × Option Error
write_proto accepts taken (err e) = (taken, some e)
write_proto accepts taken (ok message) =
    next_write (λ taken1. write_bytes accepts taken1 message)
      (write_bytes accepts taken (put_uint32 (length message)))

-- `io.ReadFull`, on a stream that ends after the bytes given: what is left, and the bytes read.
unfoldable pub read_full : ℕ → GoString → GoString × Result GoString
read_full n stream =
    if ltb (length stream) n then ([], err plain) else (drop n stream, ok (take n stream))

-- The next read, unless one failed.
abbrev pub next_read :
    {A B : Type 0}
    → (GoString → A → GoString × Result B)
    → GoString × Result A
    → GoString × Result B
next_read more (rest, err e) = (rest, err e)
next_read more (rest, ok a) = more rest a

unfoldable pub read_proto : {M : Type 0} → (GoString → Result M) → GoString → GoString × Result M
read_proto unmarshal stream =
    next_read
      (λ rest size.
        next_read (λ rest1 message. (rest1, unmarshal message)) (read_full (get_uint32 size) rest))
      (read_full 4 stream)
