-- ===== src/Bitcask/Appended.antt =====
-- bitcask/main.go, appendEntry: what the append of an entry to the merge segment and its hint file leaves.
use design_pocs.Common.{
  ℕ, ◌+◌, ◌≤◌, ◌≡◌, refl, Option, none, some, arith, Bytes, length, take, Maybe, read_at, write_at,
  read_at-write_at_self,
}
use design_pocs.Bitcask.Store.{path_eq, path_key, KeyDirEntry, BitCask, file_of, write_file}
use design_pocs.Bitcask.Segment.{
  MergeSegment, MergeIo, data_path, hint_path, hint_record, Appended, hint_appended, data_appended,
  append_entry,
}
use design_pocs.Bitcask.Grown.{
  Grown, Current, Grown-trans, file_of-insert_ne, file_of-insert_eq, hint_write-Grown,
  data_write-Grown, advance-Grown,
}

-- A new entry: where it is, with which bytes, and that the segment does not write there again.
abbrev pub IsFresh : Bytes → ℕ → MergeSegment → Appended → KeyDirEntry → Type 0
IsFresh buf value_size m a e =
    (e.file_path ≡ data_path m)
    × (e.value_size ≡ value_size)
    × (read_at (file_of (data_path m) a.store.disk) e.file_entry_offset (length buf) ≡ some buf)
    × (e.file_entry_offset + length buf ≤ a.segment.data_offset)

-- What appendEntry leaves: the old bytes, and, where it gives an entry, the new ones at its place.
pub record HasAppended (buf : Bytes) (value_size : ℕ) (m : MergeSegment) (s : BitCask)
    (a : Appended) : Type 0 where
  pub grown : Grown s m a.store a.segment
  pub current : Current s m → Current a.store a.segment
  pub same_id : a.segment.id ≡ m.id
  pub fresh : Maybe (IsFresh buf value_size m a) a.new_entry

hint_appended-HasAppended :
    (hint : Option ℕ) (buf key : Bytes) (value_size : ℕ) (m : MergeSegment) (s t : BitCask)
    → Grown s m t m
    → (Current s m → Current t m)
    → read_at (file_of (data_path m) t.disk) m.data_offset (length buf) ≡ some buf
    → HasAppended buf value_size m s (hint_appended hint buf key value_size m t)
unfolding path_eq
hint_appended-HasAppended none buf key value_size m s t g c written =
    let hint = hint_record key value_size m.data_offset in
    let h = hint_write-Grown m.hint_offset hint m t in
    record {
      grown =
          advance-Grown s (write_file (hint_path m) m.hint_offset hint t) m (length buf)
            (m.hint_offset + length hint) (Grown-trans g h);
      current = λ cur. record { newest = (c cur).newest; filed = (c cur).filed };
      same_id = refl;
      fresh = (
        refl,
        refl,
        rw
            (file_of-insert_ne (data_path m) (hint_path m)
              (write_at (file_of (hint_path m) t.disk) m.hint_offset hint) t.disk refl)
            written,
        omega arith,
      );
    }
hint_appended-HasAppended (some n) buf key value_size m s t g c written =
    let hint = hint_record key value_size m.data_offset in
    record {
      grown = Grown-trans g (hint_write-Grown m.hint_offset (take n hint) m t);
      current = λ cur. record { newest = (c cur).newest; filed = (c cur).filed };
      same_id = refl;
      fresh = tt;
    }

data_appended-HasAppended :
    (first hint : Option ℕ) (buf key : Bytes) (value_size : ℕ) (m : MergeSegment) (s : BitCask)
    → HasAppended buf value_size m s (data_appended first hint buf key value_size m s)
data_appended-HasAppended none hint buf key value_size m s =
    let f = file_of (data_path m) s.disk in
    hint_appended-HasAppended hint buf key value_size m s
      (write_file (data_path m) m.data_offset buf s) (data_write-Grown buf m s)
      (λ cur. record { newest = cur.newest; filed = cur.filed })
      (rw (file_of-insert_eq (data_path m) (write_at f m.data_offset buf) s.disk)
        (read_at-write_at_self f m.data_offset buf))
data_appended-HasAppended (some n) hint buf key value_size m s = record {
  grown = data_write-Grown (take n buf) m s;
  current = λ cur. record { newest = cur.newest; filed = cur.filed };
  same_id = refl;
  fresh = tt;
}

pub append_entry-HasAppended :
    (io : MergeIo) (here : KeyDirEntry) (buf key : Bytes) (value_size : ℕ) (m : MergeSegment)
    (s : BitCask)
    → HasAppended buf value_size m s (append_entry io here buf key value_size m s)
unfolding append_entry
append_entry-HasAppended io here buf key value_size m s =
    data_appended-HasAppended (io.data_written here.file_path here.file_entry_offset)
      (io.hint_written here.file_path here.file_entry_offset) buf key value_size m s
