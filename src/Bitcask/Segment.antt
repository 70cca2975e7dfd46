-- ===== src/Bitcask/Segment.antt =====
-- bitcask/main.go: the merge segment, which is a data file with its hint file: openMergeSegment,
-- rotateMergeSegmentLocked, ensureMergeSegmentCapacityLocked and appendEntry.
use design_pocs.Common.{
  ℕ, ◌+◌, ◌/◌, Bool, ◌&&◌, Option, none, some, List, ◌++◌, Bytes, length, take, lookup, remove,
  insert, leb, put_u32, u32, if◌then◌else◌, write_at,
}
use design_pocs.Bitcask.Store.{
  FilePath, merge_data, merge_hint, path_key, KeyDirEntry, BitCask, create, file_of, write_file,
}

-- mergeSegment; the paths and the handles are those of the id.
pub record MergeSegment : Type 0 where
  pub id : ℕ
  pub data_offset : ℕ
  pub hint_offset : ℕ

-- How far openMergeSegment comes: the first Stat, the two opens, and the two Stats of the handles.
pub data OpenOutcome : Type 0 where
  stat_fails data_fails hint_fails data_size_fails hint_size_fails opens : OpenOutcome

-- What the system answers while Merge runs. Each call is made once for its arguments: a read is known by the
-- file and the offset, and so are both writes that append the entry that was read there; what belongs to a
-- new segment is known by its id. A write that fails has put the first bytes into the file. The segment is
-- synced behind each file that is merged, and before a rotation.
pub record MergeIo : Type 0 where
  pub opening : ℕ → OpenOutcome
  pub header_served : FilePath → ℕ → Bool
  pub entry_served : FilePath → ℕ → Bool
  pub data_written : FilePath → ℕ → Option ℕ
  pub hint_written : FilePath → ℕ → Option ℕ
  pub synced : FilePath → Bool
  pub rotation_synced : ℕ → Bool
  pub hint_closed : ℕ → Bool
  pub removed : FilePath → Bool

abbrev pub data_path : MergeSegment → FilePath
data_path m = merge_data m.id

abbrev pub hint_path : MergeSegment → FilePath
hint_path m = merge_hint m.id

-- The data file is removed again if it was not there before.
abbrev pub without_hint :
    FilePath → List (FilePath × Bytes) → Option Bytes → List (FilePath × Bytes)
without_hint p disk none = remove p (create p disk)
without_hint p disk (some f) = create p disk

unfoldable pub open_merge_segment : OpenOutcome → ℕ → BitCask → BitCask × Option MergeSegment
unfolding create
open_merge_segment stat_fails n s = (s, none)
open_merge_segment data_fails n s = (s, none)
open_merge_segment hint_fails n s =
    let p = merge_data n in (record s { disk = without_hint p s.disk (lookup p s.disk) }, none)
open_merge_segment data_size_fails n s =
    (record s { disk = create (merge_hint n) (create (merge_data n) s.disk) }, none)
open_merge_segment hint_size_fails n s =
    (record s { disk = create (merge_hint n) (create (merge_data n) s.disk) }, none)
open_merge_segment opens n s =
    let disk = create (merge_hint n) (create (merge_data n) s.disk) in
    let m : MergeSegment = record {
      id = n;
      data_offset = length (file_of (merge_data n) disk);
      hint_offset = length (file_of (merge_hint n) disk);
    } in
    (record s { disk = disk }, some m)

-- b.filePtrs[segment.dataPath] = segment.dataFile
abbrev pub registered : BitCask × Option MergeSegment → BitCask × Option MergeSegment
registered (s, none) = (s, none)
registered (s, some m) =
    (record s { file_ptrs = insert (data_path m) (data_path m) s.file_ptrs }, some m)

unfoldable pub rotate_merge_segment :
    MergeIo → MergeSegment → BitCask → BitCask × Option MergeSegment
unfolding open_merge_segment insert
rotate_merge_segment io m s =
    let next : BitCask = record s { merge_file_cnt = s.merge_file_cnt + 1 } in
    let opened = open_merge_segment (io.opening next.merge_file_cnt) next.merge_file_cnt next in
    if io.rotation_synced m.id && io.hint_closed m.id then registered opened else (s, none)

unfoldable pub ensure_merge_capacity :
    MergeIo → MergeSegment → ℕ → BitCask → BitCask × Option MergeSegment
unfolding rotate_merge_segment
ensure_merge_capacity io m next_data_size s =
    if leb (m.data_offset + next_data_size) s.max_file_size_bytes
    then (s, some m)
    else rotate_merge_segment io m s

-- binary.LittleEndian.PutUint64
abbrev pub put_u64 : ℕ → Bytes
put_u64 n = put_u32 (u32 n) ++ put_u32 (u32 (n / 4294967296))

abbrev pub hint_record : Bytes → ℕ → ℕ → Bytes
hint_record key value_size offset =
    put_u32 (u32 (length key)) ++ put_u32 value_size ++ put_u64 offset ++ key

-- The segment moves on only when both writes succeed.
pub record Appended : Type 0 where
  pub store : BitCask
  pub segment : MergeSegment
  pub new_entry : Option KeyDirEntry

abbrev pub hint_appended : Option ℕ → Bytes → Bytes → ℕ → MergeSegment → BitCask → Appended
hint_appended none buf key value_size m s =
    let hint = hint_record key value_size m.data_offset in
    record {
      store = write_file (hint_path m) m.hint_offset hint s;
      segment = record m {
        data_offset = m.data_offset + length buf;
        hint_offset = m.hint_offset + length hint;
      };
      new_entry = some (record {
        file_path = data_path m;
        file_entry_offset = m.data_offset;
        value_size = value_size;
      });
    }
hint_appended (some n) buf key value_size m s =
    let hint = hint_record key value_size m.data_offset in
    record {
      store = write_file (hint_path m) m.hint_offset (take n hint) s;
      segment = m;
      new_entry = none;
    }

abbrev pub data_appended :
    Option ℕ → Option ℕ → Bytes → Bytes → ℕ → MergeSegment → BitCask → Appended
data_appended none hint buf key value_size m s =
    hint_appended hint buf key value_size m (write_file (data_path m) m.data_offset buf s)
data_appended (some n) hint buf key value_size m s = record {
  store = write_file (data_path m) m.data_offset (take n buf) s;
  segment = m;
  new_entry = none;
}

-- `here` is the entry that was read.
unfoldable pub append_entry :
    MergeIo → KeyDirEntry → Bytes → Bytes → ℕ → MergeSegment → BitCask → Appended
unfolding insert write_at
append_entry io here buf key value_size m s =
    data_appended (io.data_written here.file_path here.file_entry_offset)
      (io.hint_written here.file_path here.file_entry_offset) buf key value_size m s
