-- ===== src/Sync/TransferManager/Packet.antt =====
-- src/sync/TransferManager.cpp: one chunk of a file as a packet, its header, and the tests on it. Snappy
-- is a parameter.
use veritas_sync.Base.{
  drop-append, ℕ, ◌+◌, ◌*◌, ◌/◌, ◌%◌, ◌^◌, ◌≤◌, ◌<◌, ◌≡◌, refl, ap, ◌∙◌, ◌≢◌, Bool, true, false,
  not, ◌||◌, [], ◌∷◌, ◌++◌, Option, none, some, arith, Str, str_key, nat_key, nat_eq, ltb, leb,
  if◌then◌else◌, length, take, drop, length-append, drop-append,
}
use veritas_sync.Net.KcpProto.{
  msg_type_binary_chunk, append_uint16, append_uint32, read_uint16, read_uint32,
}

-- snappy::Compress and snappy::Uncompress.
pub record Snappy : Type 0 where
  pub compress : Str → Str
  pub uncompress : Str → Option Str

-- Of the library: what was compressed is restored; and its format starts with the length, so what is
-- compressed is never empty.
pub record IsLossless (S : Snappy) : Type 0 where
  pub restores : (text : Str) → S.uncompress (S.compress text) ≡ some text
  pub has_length : (text : Str) → S.compress text ≢ []

pub record ChunkHeader : Type 0 where
  pub file_path : Str
  pub chunk_index : ℕ
  pub total_chunks : ℕ
  pub uncompressed_data : Str
  pub valid : Bool

abbrev pub max_allowed_total_chunks : ℕ
max_allowed_total_chunks = 8388608

abbrev pub max_allowed_relative_path_len : ℕ
max_allowed_relative_path_len = 4096

pub data ChunkError : Type 0 where
  invalid_header empty_file_path file_path_too_long no_chunks too_many_chunks index_out_of_range :
      ChunkError

unfoldable pub validate_chunk_header : ChunkHeader → Option ChunkError
validate_chunk_header hdr =
    if not hdr.valid
    then some invalid_header
    else if nat_eq (length hdr.file_path) 0
    then some empty_file_path
    else if ltb max_allowed_relative_path_len (length hdr.file_path)
    then some file_path_too_long
    else if nat_eq hdr.total_chunks 0
    then some no_chunks
    else if ltb max_allowed_total_chunks hdr.total_chunks
    then some too_many_chunks
    else if leb hdr.total_chunks hdr.chunk_index
    then some index_out_of_range
    else none

-- The header that the source starts with.
abbrev pub no_header : ChunkHeader
no_header = record {
  file_path = [];
  chunk_index = 0;
  total_chunks = 0;
  uncompressed_data = [];
  valid = false;
}

take-append : (xs ys : Str) → take (length xs) (xs ++ ys) ≡ xs
take-append [] ys = refl
take-append (x ∷ xs) ys = ap (λ t. x ∷ t) (take-append xs ys)

append_assoc : (xs ys zs : Str) → (xs ++ ys) ++ zs ≡ xs ++ (ys ++ zs)
append_assoc [] ys zs = refl
append_assoc (x ∷ xs) ys zs = ap (λ t. x ∷ t) (append_assoc xs ys zs)

abbrev word : ℕ → Str → Str
word n rest = (n / 2 ^ 24 % 2 ^ 8) ∷ (n / 2 ^ 16 % 2 ^ 8) ∷ (n / 2 ^ 8 % 2 ^ 8) ∷ (n % 2 ^ 8) ∷ rest

read_uint32-word : (n : ℕ) (rest : Str) → n < 2 ^ 32 → read_uint32 (word n rest) ≡ (n, rest)
unfolding read_uint32
read_uint32-word n rest h = ground arith

abbrev pub chunk_header : Str → ℕ → ℕ → Str → ChunkHeader
chunk_header path chunk_index total_chunks text = record {
  file_path = path;
  chunk_index = chunk_index;
  total_chunks = total_chunks;
  uncompressed_data = text;
  valid = true;
}

module _ (S : Snappy) where
  -- The packet of `send_one_chunk`; its lengths and numbers are cut to their width.
  unfoldable pub chunk_packet : Str → ℕ → ℕ → Str → Str
  chunk_packet path current_chunk total_chunks text =
      append_uint32
        (append_uint32 (append_uint16 (msg_type_binary_chunk ∷ []) (length path % 2 ^ 16) ++ path)
          current_chunk)
        total_chunks
      ++ S.compress text

  unfoldable pub uncompress_chunk : ChunkHeader → Str → ChunkHeader
  uncompress_chunk hdr [] = record hdr { valid = true }
  uncompress_chunk hdr (c ∷ rest) = elim (S.uncompress (c ∷ rest)) [
    | none ↦ hdr
    | some text ↦ record hdr { uncompressed_data = text; valid = true }
  ]

  -- `parse_chunk_payload` from the two numbers on.
  unfoldable pub parse_numbers : Str → Str → ChunkHeader
  unfolding uncompress_chunk
  parse_numbers path rest =
      let (chunk_index, after) = read_uint32 rest in
      let (total_chunks, compressed) = read_uint32 after in
      uncompress_chunk
        (record no_header {
          file_path = path;
          chunk_index = chunk_index;
          total_chunks = total_chunks;
        })
        compressed

  -- From the path on, of which the length was read.
  unfoldable pub parse_path : ℕ → Str → ChunkHeader
  unfolding parse_numbers
  parse_path path_len rest =
      if nat_eq path_len 0 || ltb (length rest) path_len
      then no_header
      else if ltb (length (drop path_len rest)) 8
      then record no_header { file_path = take path_len rest }
      else parse_numbers (take path_len rest) (drop path_len rest)

  unfoldable pub parse_chunk_payload : Str → ChunkHeader
  unfolding parse_path
  parse_chunk_payload payload = parse_path (read_uint16 payload).0 (read_uint16 payload).1

  packet_layout :
      (path : Str) (i t : ℕ) (text : Str)
      → drop 1 (chunk_packet path i t text)
        ≡ (length path % 2 ^ 16 / 2 ^ 8 % 2 ^ 8)
          ∷ (length path % 2 ^ 16 % 2 ^ 8)
          ∷ (path ++ word i (word t (S.compress text)))
  unfolding chunk_packet append_uint16 append_uint32
  packet_layout path i t text =
      ap (λ r. (length path % 2 ^ 16 / 2 ^ 8 % 2 ^ 8) ∷ (length path % 2 ^ 16 % 2 ^ 8) ∷ r)
        (append_assoc (path ++ word i []) (word t []) (S.compress text)
          ∙ append_assoc path (word i []) (word t (S.compress text)))

  uncompress_chunk-compress :
      (hdr : ChunkHeader) (text : Str)
      → IsLossless S
      → uncompress_chunk hdr (S.compress text)
        ≡ record hdr { uncompressed_data = text; valid = true }
  unfolding uncompress_chunk
  uncompress_chunk-compress hdr text l = go (S.compress text) (l.restores text) (l.has_length text)
    where
      go :
          (packed : Str)
          → S.uncompress packed ≡ some text
          → packed ≢ []
          → uncompress_chunk hdr packed ≡ record hdr { uncompressed_data = text; valid = true }
      go [] e n = absurd (n refl)
      go (c ∷ rest) e n = rw (e, uncompress_chunk) refl

  parse_numbers-word :
      (path : Str) (i t : ℕ) (text : Str)
      → IsLossless S
      → i < 2 ^ 32
      → t < 2 ^ 32
      → parse_numbers path (word i (word t (S.compress text))) ≡ chunk_header path i t text
  unfolding parse_numbers
  parse_numbers-word path i t text l hi ht =
      rw (read_uint32-word i (word t (S.compress text)) hi, read_uint32-word t (S.compress text) ht)
        (uncompress_chunk-compress _ text l)

  parse_path-append :
      (path rest : Str)
      → 1 ≤ length path
      → 8 ≤ length rest
      → parse_path (length path) (path ++ rest) ≡ parse_numbers path rest
  unfolding parse_path
  parse_path-append path rest h k =
      let some_path : nat_eq (length path) 0 ≡ false = ground (arith, h) in
      let enough : ltb (length (path ++ rest)) (length path) ≡ false =
        ground (arith, length-append path rest) in
      let numbers : ltb (length rest) 8 ≡ false = ground (arith, k) in
      rw (some_path, enough, drop-append path rest, take-append path rest, numbers) refl

  -- The packet of a chunk, without the byte for its type, is read back as that chunk, if the path
  -- has 1 to 65535 bytes and the two numbers fit 32 bits.
  pub parse-chunk_packet :
      (path : Str) (i t : ℕ) (text : Str)
      → IsLossless S
      → 1 ≤ length path
      → length path < 2 ^ 16
      → i < 2 ^ 32
      → t < 2 ^ 32
      → parse_chunk_payload (drop 1 (chunk_packet path i t text)) ≡ chunk_header path i t text
  unfolding parse_chunk_payload read_uint16
  parse-chunk_packet path i t text l some_path short hi ht =
      let len : length path % 2 ^ 16 / 2 ^ 8 % 2 ^ 8 * 2 ^ 8 + length path % 2 ^ 16 % 2 ^ 8
          ≡ length path =
        omega (arith, short) in
      rw (packet_layout path i t text, len)
        (parse_path-append path (word i (word t (S.compress text))) some_path (omega arith)
          ∙ parse_numbers-word path i t text l hi ht)
