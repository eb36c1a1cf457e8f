-- ===== src/Server/ByteStream/Examples.antt =====
-- The theorems on the ByteStream service, at one blob.
use go_rego.Base.{ℕ, ◌≡◌, refl, Bool, true, false, none, [], ◌∷◌, take, drop, arith}
use go_rego.Base.Lists.{All}
use go_rego.Base.Text.{GoString, codes, str_eq}
use go_rego.Base.Results.{Result, ok}
use go_rego.Storage.Digests.{Digest}
use go_rego.Storage.Files.{Reader}
use go_rego.Proxy.Store.{Upload}
use go_rego.Server.ByteStream.{
  parse_resource_name, segments, decimal, ReadRequest, read, limit_of, WriteRequest, Ending, write,
}
use go_rego.Storage.Downloads.{ReadClient, remote_get}
use go_rego.Server.ByteStream.Downloads.{whole, remote_get-read}
use go_rego.Server.ByteStream.Streams.{joined, IsChunk, messages, Ends, read-sent, write-messages}

abbrev digest : Digest
digest = record { hash = codes "abcd"; size = 3 }

abbrev request : ReadRequest
request = record { resource_name = codes "main/blobs/abcd/3"; read_offset = 1; read_limit = 0 }

abbrev held : Digest → Result (Reader × Bool)
held d = ok (record { bytes = codes "abc"; ends = none }, true)

abbrev same_reader : Reader → Reader
same_reader reader = reader

-- Every call of the reader gives one byte.
abbrev one_byte : ℕ → ℕ
one_byte k = 0

read_name : parse_resource_name (codes "main/blobs/abcd/3") false ≡ ok (digest, false)
unfolding parse_resource_name segments decimal str_eq
read_name = refl

read-sent_example :
    let sent = read held same_reader one_byte (λ k. none) request in
    (joined sent.0 ≡ take (limit_of 0) (drop 1 (codes "abc")))
    × (sent.1 ≡ none)
    × All IsChunk sent.0
read-sent_example =
    read-sent held same_reader one_byte request digest (codes "abc") true read_name refl
      (omega arith)

abbrev upload_name : GoString
upload_name = codes "uploads/4f2a/blobs/abcd/3"

write_name : parse_resource_name upload_name true ≡ ok (digest, false)
unfolding parse_resource_name segments decimal str_eq
write_name = refl

-- A store that takes two bytes of each blob.
abbrev takes_two : ℕ → Digest → Bool → Reader → Upload ℕ
takes_two s d compressed reader = record { state = s; consumed = 2; error = none }

-- Two messages with rising offsets; the second one finishes.
abbrev opening : WriteRequest
opening = record {
  resource_name = upload_name;
  write_offset = 0;
  bytes = codes "ab";
  finish_write = false;
}

abbrev closing : WriteRequest
closing = record {
  resource_name = upload_name;
  write_offset = 2;
  bytes = codes "c";
  finish_write = true;
}

abbrev calm : Ending
calm = record { canceled = none; closing = none }

write-messages_example :
    Ends takes_two calm
      (record { state = 0; consumed = 2; error = none })
      (codes "abc")
      (write takes_two calm 0 (messages (opening ∷ []) closing []))
write-messages_example =
    write-messages takes_two calm 0 (opening ∷ []) closing [] digest false (refl, tt) refl (λ e. cc)
      refl write_name

-- A client of the server that holds the blob.
abbrev client : ReadClient
client = record {
  missing_blobs = λ ds. ok [];
  resource_name = λ kind d. ok (codes "main/blobs/abcd/3");
  read = λ name. ok (read held same_reader one_byte (λ k. none) (whole name));
  new_decoder = λ reader. ok reader;
}

remote_get-read_example :
    remote_get client false digest ≡ ok (record { bytes = codes "abc"; ends = none })
remote_get-read_example =
    remote_get-read client held same_reader one_byte (codes "main/blobs/abcd/3") (codes "abc")
      digest true refl read_name refl refl (omega arith)
