-- ===== src/Sync/TransferManager/State.antt =====
-- include/VeritasSync/sync/TransferManager.h: the files that are received and sent, the disk, and the
-- unfinished downloads that the database keeps.
use veritas_sync.Base.{
  Option, ℕ, zero, suc, ◌+◌, ◌%◌, ◌^◌, Bool, true, false, List, [], ◌∷◌, ◌++◌, none, some, Str,
  str_key, nat_key, if◌then◌else◌, get_elem?, bytes, contains,
}
use veritas_sync.Base.Map.{Map, insert_or_assign, erase}
use veritas_sync.Common.PathUtils.{join_path}

pub record ReceivingFile : Type 0 where
  pub temp_path : Str
  pub total_chunks : ℕ
  pub received_chunks : ℕ
  pub received_bitmap : List Bool
  pub last_active : ℕ
  pub peer_id : Str
  pub expected_hash : Str
  pub expected_size : ℕ
  pub busy : Bool
  -- Whether `file_stream` is open.
  pub is_open : Bool

pub record SendingFile : Type 0 where
  pub total_chunks : ℕ
  pub sent_chunks : ℕ

pub record DownloadTaskRecord : Type 0 where
  pub path : Str
  pub peer_id : Str
  pub total_chunks : ℕ
  pub bitmap_data : List ℕ
  pub expected_hash : Str
  pub expected_size : ℕ
  pub temp_path : Str

-- `record_sync_success` and `mark_file_received`, which are called with the same path and hash.
pub record Completed : Type 0 where
  pub peer_id : Str
  pub path : Str
  pub hash : Str

pub record Transfer : Type 0 where
  pub receiving_files : Map Str ReceivingFile
  pub sending_files : Map Str SendingFile
  pub session_total : ℕ
  pub session_done : ℕ
  pub disk : Map Str Str
  pub tasks : Map Str DownloadTaskRecord
  pub completed : List Completed
  -- `record_file_sent`
  pub sent : List Completed

-- Which calls of the file system succeed during one `handle_chunk`, and what a failed write and a
-- failed copy leave. `hashed` says that the new file can be opened and read for its hash.
pub record Io : Type 0 where
  pub dirs_made : Bool
  pub opened : Bool
  pub written : Bool
  pub renamed : Bool
  pub copied : Bool
  pub removed : Bool
  pub hashed : Bool
  pub torn : Str
  pub half_copied : Option Str

-- What `ChunkLookupResult` says beside the entry itself.
pub record ChunkLookup : Type 0 where
  pub need_open_stream : Bool
  pub need_create_dirs : Bool

abbrev pub make_sending_key : Str → Str → Str
make_sending_key peer_id path = peer_id ++ 0 ∷ path

abbrev pub full_path : Str → Str → Str
full_path root path = join_path root path

abbrev pub temp_path_of : Str → Str → Str
temp_path_of root path = full_path root path ++ bytes ".veritas_tmp"

abbrev pub has_parent_path : Str → Bool
has_parent_path path = contains path b'/'

unfoldable pub replicate_false : ℕ → List Bool
replicate_false zero = []
replicate_false (suc n) = false ∷ replicate_false n

-- `std::vector::resize` with false.
unfoldable pub resize : ℕ → List Bool → List Bool
unfolding replicate_false
resize zero bitmap = []
resize (suc n) [] = false ∷ replicate_false n
resize (suc n) (b ∷ bitmap) = b ∷ resize n bitmap

unfoldable pub set_bit : ℕ → List Bool → List Bool
set_bit i [] = []
set_bit zero (b ∷ bitmap) = true ∷ bitmap
set_bit (suc i) (b ∷ bitmap) = b ∷ set_bit i bitmap

unfoldable pub count_true : List Bool → ℕ
count_true [] = 0
count_true (true ∷ bitmap) = suc (count_true bitmap)
count_true (false ∷ bitmap) = count_true bitmap

abbrev pub counted : ℕ → ℕ
counted n = (n + 1) % 2 ^ 64

abbrev pub put_file : Str → ReceivingFile → Transfer → Transfer
put_file path rf t = record t { receiving_files = insert_or_assign path rf t.receiving_files }

-- `std::filesystem::remove`, if it succeeds.
abbrev pub remove_file : Io → Str → Map Str Str → Map Str Str
remove_file io path disk = if io.removed then erase path disk else disk

-- How every failure in `handle_chunk` ends.
abbrev pub fail_task : Str → Transfer → Transfer
fail_task path t = record t {
  session_done = counted t.session_done;
  receiving_files = erase path t.receiving_files;
}

abbrev pub bit_at : List Bool → ℕ → Bool
bit_at bitmap i = elim (get_elem? bitmap i) [ none ↦ false | some b ↦ b ]
