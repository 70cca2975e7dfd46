-- ===== src/Bitcask/Store.antt =====
-- bitcask/main.go: the store, the files under it, and New, put, Put, Delete and Get.
-- Offsets and counters are unbounded here, int and int64 in the source. The base path is the
-- constant "./", so a path is its kind and number.
use design_pocs.Common.{
  ℕ, ◌+◌, ◌≡◌, ap, ◌↔◌, Bool, true, false, Option, none, some, List, [], arith, Bytes, length, take,
  drop, Eq, lookup, remove, insert, read_at, write_at, bytes_eq, bytes_key, leb, ◌==◌, u32,
  if◌then◌else◌,
}
use design_pocs.Bitcask.Checksum.{checksum}
use design_pocs.Bitcask.Record.{
  header_size, slice, encode_entry, stored_key_size, stored_value_size, stored_flag,
  stored_checksum,
}

-- "./%d.data", "./merge-%d.data" and "./merge-%d.hint"
pub data FilePath : Type 0 where
  data_file merge_data merge_hint : ℕ → FilePath

unfoldable pub path_eq : FilePath → FilePath → Bool
path_eq (data_file m) (data_file n) = m == n
path_eq (merge_data m) (merge_data n) = m == n
path_eq (merge_hint m) (merge_hint n) = m == n
path_eq _ _ = false

pub path_eq_iff : (a b : FilePath) → (path_eq a b ≡ true) ↔ (a ≡ b)
unfolding path_eq
path_eq_iff (data_file m) (data_file n) = ground arith
path_eq_iff (merge_data m) (merge_data n) = ground arith
path_eq_iff (merge_hint m) (merge_hint n) = ground arith
path_eq_iff (data_file m) (merge_data n) = ground arith
path_eq_iff (data_file m) (merge_hint n) = ground arith
path_eq_iff (merge_data m) (data_file n) = ground arith
path_eq_iff (merge_data m) (merge_hint n) = ground arith
path_eq_iff (merge_hint m) (data_file n) = ground arith
path_eq_iff (merge_hint m) (merge_data n) = ground arith

instance abbrev pub path_key : Eq FilePath
path_key = record { beq = path_eq; beq_iff = path_eq_iff }

pub record KeyDirEntry : Type 0 where
  pub file_path : FilePath
  pub file_entry_offset : ℕ
  pub value_size : ℕ

-- A handle is the path that was opened: the store removes a file only with its handle.
-- `disk` is the content of the directory.
pub record BitCask : Type 0 where
  pub curr_offset : ℕ
  pub file_ptrs : List (FilePath × FilePath)
  pub key_dir : List (Bytes × KeyDirEntry)
  pub file_cnt : ℕ
  pub max_file_size_bytes : ℕ
  pub merge_file_cnt : ℕ
  pub merge_file_offset : ℕ
  pub merge_hint_file_offset : ℕ
  pub disk : List (FilePath × Bytes)

-- `New` over the files that are in the directory already; it reads none of them.
abbrev pub new : List (FilePath × Bytes) → BitCask
new disk = record {
  curr_offset = 0;
  file_ptrs = [];
  key_dir = [];
  file_cnt = 1;
  max_file_size_bytes = 65536;
  merge_file_cnt = 1;
  merge_file_offset = 0;
  merge_hint_file_offset = 0;
  disk = disk;
}

pub data PutError : Type 0 where
  open_failed invalid_handle write_failed incomplete_write : PutError

-- What WriteAt did: all written, or the first bytes and then an error, or a short count.
pub data WriteOutcome : Type 0 where
  wrote : WriteOutcome
  failed short : ℕ → WriteOutcome

-- What the system answers in one call of `put`: the clock, the two opens and the write.
pub record PutIo : Type 0 where
  pub now : ℕ
  pub open_active : Bool
  pub write : WriteOutcome
  pub open_next : Bool

abbrev pub all_well : ℕ → PutIo
all_well now = record { now = now; open_active = true; write = wrote; open_next = true }

-- An action gives the state that it leaves and its error, nil being `none`.
abbrev pub Action : Type 0
Action = BitCask → BitCask × Option PutError

infixr 5 ◌>>◌
abbrev pub ◌>>◌ : Action → Action → Action
◌>>◌ m k s = let (s', r) = m s in elim r [ none ↦ k s' | some e ↦ (s', some e) ]

-- The rest of a sequence, after this result.
abbrev resume : Action → BitCask × Option PutError → BitCask × Option PutError
resume k x = elim x.1 [ none ↦ k x.0 | some e ↦ (x.0, some e) ]

pub seq_same : (m n k : Action) (s t : BitCask) → m s ≡ n t → (m >> k) s ≡ (n >> k) t
seq_same m n k s t p = ap (resume k) p

pub seq_error :
    (m k : Action) (s t : BitCask) (e : PutError) → m s ≡ (t, some e) → (m >> k) s ≡ (t, some e)
seq_error m k s t e p = ap (resume k) p

pub seq_ok : (m k : Action) (s t : BitCask) → m s ≡ (t, none) → (m >> k) s ≡ k t
seq_ok m k s t p = ap (resume k) p

-- os.OpenFile(path, os.O_CREATE|os.O_RDWR, 0644): the content of a file that exists is kept.
unfoldable pub create : FilePath → List (FilePath × Bytes) → List (FilePath × Bytes)
create path disk = elim (lookup path disk) [ none ↦ insert path [] disk | some _ ↦ disk ]

abbrev pub open_file : FilePath → BitCask → BitCask
open_file path s = record s { disk = create path s.disk; file_ptrs = insert path path s.file_ptrs }

abbrev pub file_of : FilePath → List (FilePath × Bytes) → Bytes
file_of path disk = elim (lookup path disk) [ none ↦ [] | some f ↦ f ]

abbrev pub write_file : FilePath → ℕ → Bytes → BitCask → BitCask
write_file path offset b s = record s {
  disk = insert path (write_at (file_of path s.disk) offset b) s.disk;
}

abbrev pub active_path : BitCask → FilePath
active_path s = data_file s.file_cnt

-- if len(b.filePtrs) == 0 { … }
unfoldable pub ensure_open : PutIo → Action
ensure_open io s =
    if length s.file_ptrs == 0
    then (if io.open_active then (open_file (active_path s) s, none) else (s, some open_failed))
    else (s, none)

-- filePtr.WriteAt(buf, b.currOffset), and the tests on its results.
unfoldable pub land : WriteOutcome → FilePath → Bytes → Action
land wrote handle buf s = (write_file handle s.curr_offset buf s, none)
land (failed n) handle buf s = (write_file handle s.curr_offset (take n buf) s, some write_failed)
land (short n) handle buf s =
    (write_file handle s.curr_offset (take n buf) s, some incomplete_write)

-- A handle that is missing from the map is nil, and its WriteAt returns an error.
unfoldable pub write_entry : Bytes → PutIo → Action
unfolding land
write_entry buf io s = elim (lookup (active_path s) s.file_ptrs) [
  | none ↦ (s, some invalid_handle)
  | some handle ↦ land io.write handle buf s
]

unfoldable pub index_entry : Bytes → Bytes → ℕ → Action
index_entry key value flag s = (
  record s {
    key_dir =
        if flag == 0
        then insert key
            (record {
              file_path = active_path s;
              file_entry_offset = s.curr_offset;
              value_size = u32 (length value);
            })
            s.key_dir
        else remove key s.key_dir;
    curr_offset = s.curr_offset + (header_size + length key + length value);
  },
  none,
)

-- if b.currOffset >= b.maxFileSizeBytes { … }: the counter has moved on when the open fails.
unfoldable pub rotate : PutIo → Action
rotate io s =
    let next = record s { file_cnt = s.file_cnt + 1 } in
    if leb s.max_file_size_bytes s.curr_offset
    then if io.open_next
      then (record (open_file (active_path next) next) { curr_offset = 0 }, none)
      else (next, some open_failed)
    else (s, none)

-- The method `put`, with the flag of `Put` or `Delete`.
unfoldable pub put_flag : Bytes → Bytes → ℕ → PutIo → Action
put_flag key value flag io =
    ensure_open io
    >> write_entry (encode_entry io.now key value flag) io
    >> index_entry key value flag
    >> rotate io

abbrev pub put : Bytes → Bytes → PutIo → Action
put key value = put_flag key value 0

abbrev pub delete : Bytes → PutIo → Action
delete key = put_flag key [] 1

pub data GetError : Type 0 where
  key_not_found read_failed corrupted_entry key_mismatch : GetError

pub data Reply : Type 0 where
  value : Bytes → Reply
  failure : GetError → Reply

-- Whether the system serves the two reads of one call of `Get`.
pub record GetIo : Type 0 where
  pub header_read : Bool
  pub entry_read : Bool

abbrev pub reads_well : GetIo
reads_well = record { header_read = true; entry_read = true }

-- filePtr.ReadAt, where `served` is false when the system fails.
unfoldable pub read_file : Bool → FilePath → ℕ → ℕ → BitCask → Option Bytes
read_file served path offset n s = elim (lookup path s.file_ptrs) [
  | none ↦ none
  | some handle ↦ if served then read_at (file_of handle s.disk) offset n else none
]

-- The checks of `Get` on the whole entry, in their order.
unfoldable pub check_entry : Bytes → ℕ → ℕ → Bytes → Reply
check_entry key key_size flag buf =
    if checksum (drop 4 buf) == stored_checksum buf
    then if bytes_eq (slice header_size (header_size + key_size) buf) key
      then (if flag == 1 then failure key_not_found else value (drop (header_size + key_size) buf))
      else failure key_mismatch
    else failure corrupted_entry

unfoldable pub read_entry : Bytes → KeyDirEntry → GetIo → BitCask → Reply
read_entry key e io s =
    elim (read_file io.header_read e.file_path e.file_entry_offset header_size s) [
      | none ↦ failure read_failed
      | some header ↦
          let size = header_size + stored_key_size header + stored_value_size header in
          elim (read_file io.entry_read e.file_path e.file_entry_offset size s) [
            | none ↦ failure read_failed
            | some buf ↦ check_entry key (stored_key_size header) (stored_flag header) buf
          ]
    ]

unfoldable pub get : Bytes → GetIo → BitCask → Reply
get key io s = elim (lookup key s.key_dir) [
  | none ↦ failure key_not_found
  | some e ↦ read_entry key e io s
]
