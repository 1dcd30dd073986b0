-- ===== src/Net/KcpProto.antt =====
-- include/VeritasSync/net/KcpProto.h: message types, and integers in network byte order. A buffer
-- with a cursor and a length is the list of the bytes that are left.
use veritas_sync.Base.{
  ℕ, ◌+◌, ◌*◌, ◌/◌, ◌%◌, ◌^◌, ◌<◌, ◌≡◌, [], ◌∷◌, ◌++◌, arith, Str, str_key, nat_key, length, drop,
  drop-append,
}

abbrev pub msg_type_json : ℕ
msg_type_json = 0x01

abbrev pub msg_type_binary_chunk : ℕ
msg_type_binary_chunk = 0x80

abbrev pub msg_type_ping : ℕ
msg_type_ping = 0x03

unfoldable pub append_uint16 : Str → ℕ → Str
append_uint16 s val = s ++ (val / 2 ^ 8 % 2 ^ 8) ∷ (val % 2 ^ 8) ∷ []

unfoldable pub append_uint32 : Str → ℕ → Str
append_uint32 s val =
    s
    ++ (val / 2 ^ 24 % 2 ^ 8) ∷ (val / 2 ^ 16 % 2 ^ 8) ∷ (val / 2 ^ 8 % 2 ^ 8) ∷ (val % 2 ^ 8) ∷ []

-- With too few bytes the result is 0 and the cursor stays.
unfoldable pub read_uint16 : Str → ℕ × Str
read_uint16 (a ∷ b ∷ rest) = (a * 2 ^ 8 + b, rest)
read_uint16 data_left = (0, data_left)

unfoldable pub read_uint32 : Str → ℕ × Str
read_uint32 (a ∷ b ∷ c ∷ d ∷ rest) = (a * 2 ^ 24 + b * 2 ^ 16 + c * 2 ^ 8 + d, rest)
read_uint32 data_left = (0, data_left)

-- Numbers that fit their width and were appended to a buffer one after the other are read back,
-- from the point where the buffer ended; what comes after is left.
pub read-append_uint :
    (s rest : Str) (val word : ℕ)
    → val < 2 ^ 16
    → word < 2 ^ 32
    → (read_uint16 (drop (length s) (append_uint16 s val) ++ rest) ≡ (val, rest))
      × (read_uint32 (drop (length s) (append_uint32 s word) ++ rest) ≡ (word, rest))
unfolding read_uint16 read_uint32 append_uint16 append_uint32
read-append_uint s rest val word h k =
    (rw (drop-append s _) (ground arith), rw (drop-append s _) (ground arith))
