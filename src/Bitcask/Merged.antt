-- ===== src/Bitcask/Merged.antt =====
-- bitcask/main.go: Merge leaves every key with its value.
use design_pocs.Common.{
  ℕ, suc, ◌≡◌, inr, refl, ◌∙◌, Bool, true, false, ◌&&◌, Option, none, some, List, [], ◌∷◌, arith,
  All, Bytes, length, lookup, bytes_key, if◌then◌else◌,
}
use design_pocs.Bitcask.Store.{FilePath, path_key, KeyDirEntry, BitCask, file_of}
use design_pocs.Bitcask.Kept.{Handles}
use design_pocs.Bitcask.Segment.{MergeSegment, MergeIo, data_path}
use design_pocs.Bitcask.Merge.{
  Scan, ScanEnd, scan_ended, without_segment, slice_panics, goes_on, scan_file, MergeEnd, merging,
  merge_panics, merge_loops, finish_file, merge_found, merge_file, merge_immutable_files, go_on,
}
use design_pocs.Bitcask.Grown.{IsOlder, Grown-refl, Current}
use design_pocs.Bitcask.Moved.{Sound}
use design_pocs.Bitcask.Scanned.{AllSound, ScanGood}
use design_pocs.Bitcask.MergeScan.{Reaches}
use design_pocs.Bitcask.MergeFile.{Moves, MetFrom, scan_file-Good}
use design_pocs.Bitcask.MergePass.{
  Serves, After, IsReady, FileGood, Grown-Serves, kept-After, removed-After,
}

module _ (V : Bytes → Bytes) where
  if-FileGood :
      (s : BitCask) (m : MergeSegment) (b : Bool) (x y : MergeEnd)
      → (b ≡ true → FileGood V s m x)
      → FileGood V s m y
      → FileGood V s m (if b then x else y)
  if-FileGood s m true x y h k = h refl
  if-FileGood s m false x y h k = k

  module _ (io : MergeIo) (p : FilePath) (s : BitCask) (m : MergeSegment)
      (sound : AllSound V p s m s m) (handles : Handles s) (cur : Current s m) where
    start : Serves V s s m
    start = record { sound = sound; keys = λ key gone. gone; no_keys = λ key gone. gone }

    finish_file-Good :
        (ready : IsReady V s m p) (moves : Moves (file_of p s.disk)) (end : ScanEnd)
        → ((key : Bytes) (e : KeyDirEntry)
            → lookup key s.key_dir ≡ some e
            → e.file_path ≡ p
            → (k : ℕ) × Reaches k (file_of p s.disk) 0 e.file_entry_offset)
        → ScanGood V p s m
            (λ key e.
              (e.file_path ≡ p) × ((k : ℕ) × Reaches k (file_of p s.disk) 0 e.file_entry_offset))
            end
        → FileGood V s m (finish_file io p end)
    unfolding finish_file
    finish_file-Good ready moves (scan_ended c) reached (g, covers) =
        if-FileGood s m (io.synced p && c.is_merged) _ (merging c.scan_store c.scan_segment)
          (λ fine. removed-After V io p s m sound handles ready.older c g (λ key e found at_p.
            covers (ground arith) key e found (at_p, reached key e found at_p)))
          (kept-After V io p s m sound handles ready.older c g)
    finish_file-Good ready moves (without_segment t) reached (k, g) =
        (k, Grown-Serves V s t m k start g)
    finish_file-Good ready moves (slice_panics t) reached (k, g) =
        (k, Grown-Serves V s t m k start g)
    finish_file-Good ready moves goes_on reached h = elim h [ ]

    unchanged-After : After V s m s m
    unchanged-After = record {
      serves = start;
      current = cur;
      handles = handles;
      ids = omega arith;
      others = λ q h in_data old there. (there, refl);
      entries = λ q key e old found at_q. found;
    }

    narrowed :
        (Met Met' : Bytes → KeyDirEntry → Type 0) (end : ScanEnd)
        → ((key : Bytes) (e : KeyDirEntry) → Met' key e → Met key e)
        → ScanGood V p s m Met end
        → ScanGood V p s m Met' end
    narrowed Met Met' (scan_ended c) f (g, covers) =
        (g, λ fine key e found met. covers fine key e found (f key e met))
    narrowed Met Met' (without_segment t) f h = h
    narrowed Met Met' (slice_panics t) f h = h
    narrowed Met Met' goes_on f h = elim h [ ]

    begun : Scan
    begun = record { scan_store = s; scan_segment = m; pending = []; is_merged = true }

    scan_ended-Good :
        (ready : IsReady V s m p) (moves : Moves (file_of p s.disk))
        → ScanGood V p s m
            (λ key e.
              (e.file_path ≡ p) × ((k : ℕ) × Reaches k (file_of p s.disk) 0 e.file_entry_offset))
            (scan_file (suc (length (file_of p s.disk))) io p p 0 begun)
    unfolding begun
    scan_ended-Good ready moves =
        narrowed (MetFrom V p s m sound ready.older ready.in_data moves begun 0)
          (λ key e.
            (e.file_path ≡ p) × ((k : ℕ) × Reaches k (file_of p s.disk) 0 e.file_entry_offset))
          (scan_file (suc (length (file_of p s.disk))) io p p 0 begun) (λ key e met. inr met)
          (scan_file-Good V p s m sound ready.older ready.in_data moves
            (suc (length (file_of p s.disk))) io 0 begun
            (record { grown = Grown-refl s m; current = cur; moved = tt }) 0 refl (omega arith)
            (omega arith))

    merge_found-Good :
        (o : Option FilePath)
        → lookup p s.file_ptrs ≡ o
        → IsReady V s m p
        → FileGood V s m (merge_found io p s m o)
    unfolding begun
    merge_found-Good none filed ready = unchanged-After
    merge_found-Good (some h) filed ready =
        let moves = ready.moves h filed in
        rw (handles.named p h filed)
          (finish_file-Good ready moves _ (ready.reached h filed) (scan_ended-Good ready moves))

    merge_file-Good : IsReady V s m p → FileGood V s m (merge_file io p s m)
    unfolding merge_file
    merge_file-Good ready = merge_found-Good (lookup p s.file_ptrs) refl ready

  Serves-trans :
      (s t u : BitCask) (k l : MergeSegment) → Serves V s t k → Serves V t u l → Serves V s u l
  Serves-trans s t u k l f g = record {
    sound = g.sound;
    keys = λ key gone. f.keys key (g.keys key gone);
    no_keys = λ key gone. g.no_keys key (f.no_keys key gone);
  }

  later-IsOlder :
      (s t : BitCask) (m k : MergeSegment) (q : FilePath)
      → After V s m t k
      → IsOlder q m
      → IsOlder q k
  later-IsOlder s t m k q f old n e = omega (arith, old n e, f.ids)

  After-trans :
      (s t u : BitCask) (m k l : MergeSegment) → After V s m t k → After V t k u l → After V s m u l
  After-trans s t u m k l f g = record {
    serves = Serves-trans s t u k l f.serves g.serves;
    current = g.current;
    handles = g.handles;
    ids = omega (arith, f.ids, g.ids);
    others = λ q h in_data old there.
        let (filed, same) = g.others q h in_data (later-IsOlder s t m k q f old) there in
        let (filed', same') = f.others q h in_data old filed in (filed', same ∙ same');
    entries = λ q key e old found at_q.
        f.entries q key e old (g.entries q key e (later-IsOlder s t m k q f old) found at_q) at_q;
  }

  After-FileGood :
      (s t : BitCask) (m k : MergeSegment) (end : MergeEnd)
      → After V s m t k
      → FileGood V t k end
      → FileGood V s m end
  After-FileGood s t m k (merging u l) f g = After-trans s t u m k l f g
  After-FileGood s t m k (merge_panics u) f (l, g) = (l, Serves-trans s t u k l f.serves g)
  After-FileGood s t m k merge_loops f h = h

  After-IsReady :
      (s t : BitCask) (m k : MergeSegment) (q : FilePath)
      → After V s m t k
      → IsReady V s m q
      → IsReady V t k q
  After-IsReady s t m k q f ready = record {
    in_data = ready.in_data;
    older = later-IsOlder s t m k q f ready.older;
    moves = λ h filed.
        let (filed', same) = f.others q h ready.in_data ready.older filed in
        rw same (ready.moves h filed');
    reached = λ h filed key e found at_q.
        let (filed', same) = f.others q h ready.in_data ready.older filed in
        rw same (ready.reached h filed' key e (f.entries q key e ready.older found at_q) at_q);
  }

  After-AllReady :
      (s t : BitCask) (m k : MergeSegment) (qs : List FilePath)
      → After V s m t k
      → All (IsReady V s m) qs
      → All (IsReady V t k) qs
  After-AllReady s t m k [] f h = tt
  After-AllReady s t m k (q ∷ qs) f (h, hs) =
      (After-IsReady s t m k q f h, After-AllReady s t m k qs f hs)

  go_on-Good :
      (s : BitCask) (m : MergeSegment) (f : BitCask → MergeSegment → MergeEnd) (x : MergeEnd)
      → FileGood V s m x
      → ((t : BitCask) (k : MergeSegment) → After V s m t k → FileGood V t k (f t k))
      → FileGood V s m (go_on f x)
  go_on-Good s m f (merging t k) h rest = After-FileGood s t m k (f t k) h (rest t k h)
  go_on-Good s m f (merge_panics t) h rest = h
  go_on-Good s m f merge_loops h rest = h

  pub merge_immutable_files-Good :
      (io : MergeIo) (paths : List FilePath) (s : BitCask) (m : MergeSegment)
      → ((key : Bytes) (e : KeyDirEntry) → lookup key s.key_dir ≡ some e → Sound V s m key e)
      → Handles s
      → Current s m
      → All (IsReady V s m) paths
      → FileGood V s m (merge_immutable_files io paths s m)
  unfolding merge_immutable_files
  merge_immutable_files-Good io [] s m sound handles cur ready =
      unchanged-After io (data_path m) s m sound handles cur
  merge_immutable_files-Good io (p ∷ paths) s m sound handles cur (r, rs) =
      go_on-Good s m (merge_immutable_files io paths) (merge_file io p s m)
        (merge_file-Good io p s m sound handles cur r)
        (λ t k after.
          merge_immutable_files-Good io paths t k after.serves.sound after.handles after.current
            (After-AllReady s t m k paths after rs))
