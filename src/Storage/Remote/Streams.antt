-- ===== src/Storage/Remote/Streams.antt =====
-- pkg/storage/remote.go: the requests that `Put` sends, and what its success rests on.
use go_rego.Base.{
  ℕ, ◌+◌, ◌≡◌, refl, ap, sym, subst, ◌∙◌, Bool, true, false, Option, none, some, List, [], ◌∷◌,
  ◌++◌, append_assoc, append-nil, ◌==◌, length, length-append, if◌then◌else◌, arith, Option-cases,
  Bool-cases, inl, inr,
}
use go_rego.Base.Text.{GoString}
use go_rego.Base.Integers.{ℤ}
use go_rego.Base.Results.{Error, ok, Result-cases}
use go_rego.Storage.Digests.{Digest}
use go_rego.Storage.Remote.{
  WriteRequest, WriteStream, is_commit_successful, early_answer, last_answer, request, finish,
  put_reads, remote_put,
}

-- The bytes of the requests, and of the reads.
abbrev pub body : List WriteRequest → GoString
body [] = []
body (r ∷ rs) = r.bytes ++ body rs

abbrev pub joined : List GoString → GoString
joined [] = []
joined (b ∷ bs) = b ++ joined bs

body-append : (a b : List WriteRequest) → body (a ++ b) ≡ body a ++ body b
body-append [] b = refl
body-append (r ∷ a) b =
    ap (λ l. r.bytes ++ l) (body-append a b) ∙ sym (append_assoc r.bytes (body a) (body b))

-- From an offset on, each request starts where the last one ended, and only those at offset 0 have
-- the name.
abbrev pub Contiguous : GoString → ℕ → List WriteRequest → Type 0
Contiguous name offset [] = Unit
Contiguous name offset (r ∷ rs) =
    (r.write_offset ≡ offset)
    × (r.resource_name ≡ (if offset == 0 then name else []))
    × Contiguous name (offset + length r.bytes) rs

Contiguous-append :
    (name : GoString) (offset : ℕ) (a b : List WriteRequest)
    → Contiguous name offset a
    → Contiguous name (offset + length (body a)) b
    → Contiguous name offset (a ++ b)
Contiguous-append name offset [] b h k = subst (λ n. Contiguous name n b) (omega arith) k
Contiguous-append name offset (r ∷ a) b h k = (
  h.0,
  h.1,
  Contiguous-append name (offset + length r.bytes) a b h.2
      (subst (λ n. Contiguous name n b) (omega (arith, length-append r.bytes (body a))) k),
)

module _ (stream : WriteStream) (zstd : Bool) (digest : Digest) (name : GoString) where
  -- A success rests on an answer of the server that commits the blob.
  abbrev pub Committed : List WriteRequest → Option Error → Type 0
  Committed sent (some e) = Unit
  Committed sent none =
      (c : ℤ) × (stream.close_and_recv sent ≡ ok c) × (is_commit_successful zstd c digest ≡ true)

  early_answer-Committed :
      (sent : List WriteRequest) (e : Error)
      → Committed sent (early_answer stream zstd digest name e (stream.close_and_recv sent))
  early_answer-Committed sent e = elim (Result-cases (stream.close_and_recv sent)) [
    | inr (er, h) ↦ rw (h, early_answer) tt
    | inl (c, h) ↦ elim (Bool-cases (is_commit_successful zstd c digest)) [
      | inl good ↦ rw (h, early_answer, good) (c, h, good)
      | inr bad ↦ rw (h, early_answer, bad) tt
    ]
  ]

  last_answer-Committed :
      (sent : List WriteRequest)
      → Committed sent (last_answer stream zstd digest name (stream.close_and_recv sent))
  last_answer-Committed sent = elim (Result-cases (stream.close_and_recv sent)) [
    | inr (er, h) ↦ rw (h, last_answer) tt
    | inl (c, h) ↦ elim (Bool-cases (is_commit_successful zstd c digest)) [
      | inl good ↦ rw (h, last_answer, good) (c, h, good)
      | inr bad ↦ rw (h, last_answer, bad) tt
    ]
  ]

  -- The requests are contiguous, their bytes are the start of what was to be written, and a success was
  -- committed.
  abbrev pub Sound : GoString → List WriteRequest × Option Error → Type 0
  Sound all r =
      Contiguous name 0 r.0 × ((rest : GoString) × (body r.0 ++ rest ≡ all)) × Committed r.0 r.1

  next-Contiguous :
      (sent : List WriteRequest) (offset : ℕ) (bytes : GoString) (end : Bool)
      → Contiguous name 0 sent
      → length (body sent) ≡ offset
      → Contiguous name 0 (sent ++ (request stream zstd digest name offset bytes end ∷ []))
  next-Contiguous sent offset bytes end h e =
      let at : 0 + length (body sent) ≡ offset = omega arith in
      Contiguous-append name 0 sent (request stream zstd digest name offset bytes end ∷ []) h (
        subst (λ n. Contiguous name n (request stream zstd digest name offset bytes end ∷ []))
          (sym at) (refl, refl, tt))

  next-body :
      (sent : List WriteRequest) (offset : ℕ) (bytes : GoString) (end : Bool)
      → body (sent ++ (request stream zstd digest name offset bytes end ∷ [])) ≡ body sent ++ bytes
  next-body sent offset bytes end =
      body-append sent (request stream zstd digest name offset bytes end ∷ [])
      ∙ ap (λ l. body sent ++ l) (append-nil bytes)

  finish-Sound :
      (read_end : Option Error) (sent : List WriteRequest) (offset : ℕ)
      → Contiguous name 0 sent
      → length (body sent) ≡ offset
      → Sound (body sent ++ []) (finish stream zstd digest name read_end sent offset)
  unfolding finish
  finish-Sound (some e) sent offset h k = (h, ([], refl), tt)
  finish-Sound none sent offset h k =
      let all = sent ++ (request stream zstd digest name offset [] true ∷ []) in
      let shape = next-Contiguous sent offset [] true h k in
      let written =
        ap (λ l. l ++ []) (next-body sent offset [] true) ∙ append-nil (body sent ++ []) in
      elim (Option-cases (stream.send all)) [
        | inr (e, s) ↦ rw (s, finish) (shape, ([], written), early_answer-Committed all e)
        | inl s ↦ rw (s, finish) (shape, ([], written), last_answer-Committed all)
      ]

  put_reads-Sound :
      (read_end : Option Error) (reads : List GoString) (sent : List WriteRequest) (offset : ℕ)
      → Contiguous name 0 sent
      → length (body sent) ≡ offset
      → Sound
          (body sent ++ joined reads)
          (put_reads stream zstd digest name read_end reads sent offset)
  unfolding put_reads
  put_reads-Sound read_end [] sent offset h k = finish-Sound read_end sent offset h k
  put_reads-Sound read_end ([] ∷ reads) sent offset h k =
      put_reads-Sound read_end reads sent offset h k
  put_reads-Sound read_end ((b ∷ bs) ∷ reads) sent offset h k =
      let all = sent ++ (request stream zstd digest name offset (b ∷ bs) false ∷ []) in
      let shape = next-Contiguous sent offset (b ∷ bs) false h k in
      let grown = next-body sent offset (b ∷ bs) false in
      let written : body all ++ joined reads ≡ body sent ++ ((b ∷ bs) ++ joined reads) =
        ap (λ l. l ++ joined reads) grown ∙ append_assoc (body sent) (b ∷ bs) (joined reads) in
      elim (Option-cases (stream.send all)) [
        | inr (e, s) ↦
            rw (s, put_reads) (shape, (joined reads, written), early_answer-Committed all e)
        | inl s ↦
            rw (s, put_reads)
              (subst
                (λ t.
                  Sound t (
                    put_reads stream zstd digest name read_end reads all
                      (offset + length (b ∷ bs))))
                written
                (put_reads-Sound read_end reads all (offset + length (b ∷ bs)) shape
                  (omega (arith, ap length grown, length-append (body sent) (b ∷ bs)))))
      ]

  -- The requests that Put sends carry the start of the reader's bytes, in order and without a gap, each at
  -- its offset and with the name of the resource at offset 0 only; and Put succeeds only if the server's
  -- answer commits the blob: its size, or with compression any size but zero.
  pub remote_put-Sound :
      (read_end : Option Error) (reads : List GoString)
      → Sound (joined reads) (remote_put stream zstd digest name read_end reads)
  unfolding remote_put
  remote_put-Sound read_end reads = put_reads-Sound read_end reads [] 0 tt refl
