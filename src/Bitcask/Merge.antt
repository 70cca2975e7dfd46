-- ===== src/Bitcask/Merge.antt =====
-- bitcask/main.go: Merge, while no other call changes the store. Between its locks only readers run.
use design_pocs.Common.{
  ℕ, zero, suc, ◌+◌, Bool, true, false, ◌&&◌, Option, none, some, List, [], ◌∷◌, Bytes, length,
  drop, bytes_eq, bytes_key, lookup, remove, insert, read_at, ltb, leb, ◌==◌, u32, if◌then◌else◌,
}
use design_pocs.Bitcask.Checksum.{checksum}
use design_pocs.Bitcask.Record.{
  header_size, slice, stored_key_size, stored_value_size, stored_flag, stored_checksum,
}
use design_pocs.Bitcask.Store.{
  FilePath, data_file, merge_data, merge_hint, path_eq, path_key, KeyDirEntry, BitCask, active_path,
  file_of,
}
use design_pocs.Bitcask.Segment.{
  MergeSegment, MergeIo, data_path, open_merge_segment, registered, ensure_merge_capacity,
  append_entry,
}

pub record MergeUpdate : Type 0 where
  pub original : KeyDirEntry
  pub replacement : KeyDirEntry

-- What the loop over the entries of a file has come to: pendingUpdates, and fileMergedSuccessfully.
pub record Scan : Type 0 where
  pub scan_store : BitCask
  pub scan_segment : MergeSegment
  pub pending : List (Bytes × MergeUpdate)
  pub is_merged : Bool

-- The loop ends, or it ends with a nil segment, or it panics on a slice, or the fuel is used up.
pub data ScanEnd : Type 0 where
  scan_ended : Scan → ScanEnd
  without_segment : BitCask → ScanEnd
  slice_panics : BitCask → ScanEnd
  goes_on : ScanEnd

abbrev pub broken_off : Scan → ScanEnd
broken_off c = scan_ended (record c { is_merged = false })

-- int64(17 + keySize + valueSize), a sum of uint32
abbrev pub block_size : Bytes → ℕ
block_size header = u32 (header_size + stored_key_size header + stored_value_size header)

-- buf1[17 : 17+keySize], whose bounds are uint32
abbrev pub key_end : Bytes → ℕ
key_end header = u32 (header_size + stored_key_size header)

unfoldable pub entry_eq : KeyDirEntry → KeyDirEntry → Bool
unfolding path_eq
entry_eq a b =
    path_eq a.file_path b.file_path
    && (a.file_entry_offset == b.file_entry_offset)
    && (a.value_size == b.value_size)

-- What one entry of the file does: the loop goes on, or it ends.
pub data EntryEnd : Type 0 where
  next_entry : Scan → EntryEnd
  loop_ends : ScanEnd → EntryEnd

abbrev pub entry_appended : Bytes → KeyDirEntry → Scan → Option KeyDirEntry → EntryEnd
entry_appended key here c none = loop_ends (broken_off c)
entry_appended key here c (some e) =
    next_entry
      (record c { pending = insert key (record { original = here; replacement = e }) c.pending })

-- appendEntry, and the offsets of the store behind it
abbrev pub move_to :
    MergeIo → Bytes → Bytes → KeyDirEntry → Scan → BitCask × Option MergeSegment → EntryEnd
move_to io buf key here c (s, none) = loop_ends (without_segment s)
move_to io buf key here c (s, some m) =
    let a = append_entry io here buf key here.value_size m s in
    entry_appended key here
      (record c {
        scan_store = record a.store {
          merge_file_offset = a.segment.data_offset;
          merge_hint_file_offset = a.segment.hint_offset;
        };
        scan_segment = a.segment;
      })
      a.new_entry

-- keyDirEntry, ok := b.keyDir[keyStr], and the test that the index still stands for this entry
abbrev pub move_if_indexed :
    MergeIo → Bytes → Bytes → KeyDirEntry → Scan → Option KeyDirEntry → EntryEnd
move_if_indexed io buf key here c none = next_entry c
move_if_indexed io buf key here c (some e) =
    if entry_eq e here
    then move_to io buf key here c
        (ensure_merge_capacity io c.scan_segment (length buf) c.scan_store)
    else next_entry c

-- An entry whose checksum is wrong is skipped. The slices panic when the sum of the sizes has wrapped.
unfoldable pub move_entry : MergeIo → Bytes → KeyDirEntry → ℕ → Scan → EntryEnd
unfolding entry_eq ensure_merge_capacity append_entry insert lookup bytes_eq
move_entry io buf here end c =
    let key = slice header_size end buf in
    let moved = move_if_indexed io buf key here c (lookup key c.scan_store.key_dir) in
    if ltb (length buf) 4
    then loop_ends (slice_panics c.scan_store)
    else if stored_checksum buf == checksum (drop 4 buf)
    then (if leb header_size end && leb end (length buf)
        then moved
        else loop_ends (slice_panics c.scan_store))
    else next_entry c

-- The second ReadAt
abbrev pub merge_read : MergeIo → KeyDirEntry → ℕ → Scan → Bool → Option Bytes → EntryEnd
merge_read io here end c false buf = loop_ends (broken_off c)
merge_read io here end c true none = loop_ends (broken_off c)
merge_read io here end c true (some buf) = move_entry io buf here end c

-- An entry that is not deleted is moved; a deleted one is left behind.
unfoldable pub merge_header : MergeIo → FilePath → FilePath → ℕ → Bytes → Scan → EntryEnd
unfolding move_entry read_at stored_flag
merge_header io path handle offset header c =
    let here : KeyDirEntry = record {
      file_path = path;
      file_entry_offset = offset;
      value_size = stored_value_size header;
    } in
    let read = read_at (file_of handle c.scan_store.disk) offset (block_size header) in
    if stored_flag header == 0
    then merge_read io here (key_end header) c (io.entry_served path offset) read
    else next_entry c

-- The loop over the entries of a file, whose first ReadAt ends it at the end of the file.
unfoldable pub scan_file : ℕ → MergeIo → FilePath → FilePath → ℕ → Scan → ScanEnd
unfolding merge_header read_at
scan_file zero io path handle offset c = goes_on
scan_file (suc fuel) io path handle offset c =
    if io.header_served path offset
    then elim (read_at (file_of handle c.scan_store.disk) offset header_size) [
      | none ↦ scan_ended c
      | some header ↦ elim (merge_header io path handle offset header c) [
        | loop_ends end ↦ end
        | next_entry c' ↦ scan_file fuel io path handle (offset + block_size header) c'
      ]
    ]
    else broken_off c

-- The index still stands for the entry that was moved.
abbrev pub is_current : Option KeyDirEntry → KeyDirEntry → Bool
is_current none original = false
is_current (some e) original = entry_eq e original

abbrev pub apply_update :
    Bytes → MergeUpdate → List (Bytes × KeyDirEntry) → List (Bytes × KeyDirEntry)
apply_update key u dir =
    if is_current (lookup key dir) u.original then insert key u.replacement dir else dir

-- The loop over pendingUpdates
unfoldable pub apply_updates :
    List (Bytes × MergeUpdate) → List (Bytes × KeyDirEntry) → List (Bytes × KeyDirEntry)
unfolding lookup insert bytes_eq entry_eq
apply_updates [] dir = dir
apply_updates ((key, u) ∷ rest) dir = apply_updates rest (apply_update key u dir)

-- os.Remove, whose error is dropped
abbrev pub remove_file : MergeIo → FilePath → List (FilePath × Bytes) → List (FilePath × Bytes)
remove_file io p disk = if io.removed p then remove p disk else disk

-- strings.Contains(filePath, "merge"), and the hint file of such a path
abbrev pub remove_hint : MergeIo → FilePath → List (FilePath × Bytes) → List (FilePath × Bytes)
remove_hint io (data_file n) disk = disk
remove_hint io (merge_data n) disk = remove_file io (merge_hint n) disk
remove_hint io (merge_hint n) disk = remove_file io (merge_hint n) disk

-- What Merge has come to: it goes on with a segment, or it has panicked with the lock held, or it loops.
pub data MergeEnd : Type 0 where
  merging : BitCask → MergeSegment → MergeEnd
  merge_panics : BitCask → MergeEnd
  merge_loops : MergeEnd

-- Behind the loop: the sync, and, if all went well, the index and the files.
unfoldable pub finish_file : MergeIo → FilePath → ScanEnd → MergeEnd
unfolding apply_updates remove
finish_file io path (scan_ended c) =
    let s = c.scan_store in
    let m = c.scan_segment in
    if io.synced path && c.is_merged
    then merging
        (record s {
          key_dir = apply_updates c.pending s.key_dir;
          file_ptrs = remove path s.file_ptrs;
          disk = remove_hint io path (remove_file io path s.disk);
          merge_file_offset = m.data_offset;
          merge_hint_file_offset = m.hint_offset;
        })
        m
    else merging s m
finish_file io path (without_segment s) = merge_panics s
finish_file io path (slice_panics s) = merge_panics s
finish_file io path goes_on = merge_loops

-- An entry is at least one byte long, so the file's length is fuel enough, if no size has wrapped to zero.
abbrev pub merge_found : MergeIo → FilePath → BitCask → MergeSegment → Option FilePath → MergeEnd
merge_found io path s m none = merging s m
merge_found io path s m (some handle) = finish_file io path (
    scan_file (suc (length (file_of handle s.disk))) io path handle 0
      (record { scan_store = s; scan_segment = m; pending = []; is_merged = true }))

unfoldable pub merge_file : MergeIo → FilePath → BitCask → MergeSegment → MergeEnd
unfolding finish_file scan_file lookup
merge_file io path s m = merge_found io path s m (lookup path s.file_ptrs)

-- The next file, unless Merge has panicked.
abbrev pub go_on : (BitCask → MergeSegment → MergeEnd) → MergeEnd → MergeEnd
go_on f (merging s m) = f s m
go_on f (merge_panics s) = merge_panics s
go_on f merge_loops = merge_loops

unfoldable pub merge_immutable_files : MergeIo → List FilePath → BitCask → MergeSegment → MergeEnd
unfolding merge_file
merge_immutable_files io [] s m = merging s m
merge_immutable_files io (path ∷ paths) s m =
    go_on (merge_immutable_files io paths) (merge_file io path s m)

abbrev pub immutable_files : FilePath → FilePath → List (FilePath × FilePath) → List FilePath
immutable_files active segment [] = []
immutable_files active segment ((path, handle) ∷ rest) =
    let files = immutable_files active segment rest in
    if path_eq path active then files else if path_eq path segment then files else path ∷ files

pub data MergeResult : Type 0 where
  merged : BitCask → MergeResult
  panicked : BitCask → MergeResult
  loops : MergeResult

abbrev pub merge_ended : MergeEnd → MergeResult
merge_ended (merging s m) = merged s
merge_ended (merge_panics s) = panicked s
merge_ended merge_loops = loops

abbrev pub merge_opened : MergeIo → FilePath → BitCask × Option MergeSegment → MergeResult
merge_opened io active (s, none) = merged s
merge_opened io active (s, some m) =
    merge_ended (merge_immutable_files io (immutable_files active (data_path m) s.file_ptrs) s m)

-- The method Merge. The error of the last Close is only printed.
unfoldable pub merge : MergeIo → BitCask → MergeResult
unfolding open_merge_segment merge_immutable_files insert path_eq
merge io s =
    let n = s.merge_file_cnt in
    merge_opened io (active_path s) (registered (open_merge_segment (io.opening n) n s))
