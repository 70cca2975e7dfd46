-- ===== src/Bitcask/MergeScan.antt =====
-- bitcask/main.go: the loop of Merge over the entries of a file meets every entry that begins where an
-- entry before it ends.
use design_pocs.Common.{
  ℕ, zero, suc, ◌+◌, ◌≡◌, ◌⊎◌, inl, inr, refl, sym, ap, ◌∙◌, Bool, true, false, ◌&&◌, Option, none,
  some, arith, Bytes, length, drop, lookup, bytes_key, read_at, ltb, leb, ◌==◌,
}
use design_pocs.Bitcask.Checksum.{checksum}
use design_pocs.Bitcask.Record.{header_size, slice, stored_value_size, stored_flag, stored_checksum}
use design_pocs.Bitcask.Store.{FilePath, path_key, KeyDirEntry, BitCask, file_of}
use design_pocs.Bitcask.Segment.{MergeSegment, MergeIo, ensure_merge_capacity}
use design_pocs.Bitcask.Merge.{
  Scan, ScanEnd, slice_panics, block_size, key_end, entry_eq, EntryEnd, next_entry, loop_ends,
  move_to, move_if_indexed, move_entry, merge_read, merge_header,
}
use design_pocs.Bitcask.Grown.{IsOlder}
use design_pocs.Bitcask.Opened.{ensure-HasRoom}
use design_pocs.Bitcask.Scanned.{
  AllSound, Going, EntryGood, MetAt, if-EntryGood, broken_off-Good, skip-Good, Going-Sound,
  move_to-Good,
}
use design_pocs.Bitcask.Moved.{
  entry_eq-eq, entry_eq_refl, buf-IsAt, key-IsAt, checksum-IsAt, IsAt, Sound-IsAt, some-inj,
}

-- The loop comes from one offset to another over the headers of a file.
abbrev pub Reaches : ℕ → Bytes → ℕ → ℕ → Type 0
Reaches zero f cur o = cur ≡ o
Reaches (suc k) f cur o =
    (h : Bytes) × (read_at f cur header_size ≡ some h) × Reaches k f (cur + block_size h) o

pub EntryEnd-cases :
    (x : EntryEnd) → ((c : Scan) × (x ≡ next_entry c)) ⊎ ((end : ScanEnd) × (x ≡ loop_ends end))
EntryEnd-cases (next_entry c) = inl (c, refl)
EntryEnd-cases (loop_ends end) = inr (end, refl)

module _ (V : Bytes → Bytes) (p : FilePath) (s : BitCask) (m : MergeSegment)
    (all : AllSound V p s m s m) (older : IsOlder p m) where
  -- The entry of a key at an offset, which the header there describes.
  pub offset-IsAt :
      (c : Scan) (offset : ℕ) (header key : Bytes) (e : KeyDirEntry)
      → Going V p s m c
      → read_at (file_of p c.scan_store.disk) offset header_size ≡ some header
      → lookup key s.key_dir ≡ some e
      → e.file_path ≡ p
      → e.file_entry_offset ≡ offset
      → IsAt V c.scan_store p offset header key
  offset-IsAt c offset header key e g read found here there =
      Sound-IsAt V c.scan_store c.scan_segment p offset header key e read here there
        (Going-Sound V p s m all older c g key e found)

  module _ (io : MergeIo) (c : Scan) (offset : ℕ) (header : Bytes) (g : Going V p s m c)
      (head : read_at (file_of p c.scan_store.disk) offset header_size ≡ some header) where
    abbrev here : KeyDirEntry
    here = record {
      file_path = p;
      file_entry_offset = offset;
      value_size = stored_value_size header;
    }

    module _ (buf : Bytes)
        (body : read_at (file_of p c.scan_store.disk) offset (block_size header) ≡ some buf) where
      abbrev key : Bytes
      key = slice header_size (key_end header) buf

      -- No other key has its entry here.
      key_here :
          (j : Bytes) (e : KeyDirEntry)
          → lookup j s.key_dir ≡ some e
          → e.file_path ≡ p
          → e.file_entry_offset ≡ offset
          → j ≡ key
      key_here j e found at_p there = sym (
          key-IsAt V c.scan_store p offset header j buf
            (offset-IsAt c offset header j e g head found at_p there) body)

      -- The entry that the index has for a key that begins here.
      entry_here :
          (j : Bytes) (e : KeyDirEntry)
          → lookup j s.key_dir ≡ some e
          → e.file_path ≡ p
          → e.file_entry_offset ≡ offset
          → entry_eq e here ≡ true
      entry_here j e found at_p there =
          let at = offset-IsAt c offset header j e g head found at_p there in
          let sized = (Going-Sound V p s m all older c g j e found).held.sized in
          entry_eq_refl e here at_p there (sized ∙ sym at.value_size)

      move_if_indexed-Good :
          (o : Option KeyDirEntry)
          → lookup key s.key_dir ≡ o
          → EntryGood V p s m (MetAt V p s m c offset) (move_if_indexed io buf key here c o)
      move_if_indexed-Good none known = skip-Good V p s m c offset g (λ j e found at_p there.
          let same = ap (λ x. lookup x s.key_dir) (key_here j e found at_p there) in
          absurd (ground (arith, same, found, known)))
      move_if_indexed-Good (some e) known =
          if-EntryGood V p s m (MetAt V p s m c offset) (entry_eq e here)
            (move_to io buf key here c
              (ensure_merge_capacity io c.scan_segment (length buf) c.scan_store))
            (next_entry c)
            (λ equal.
              let same : e ≡ here = entry_eq-eq e here equal in
              let at =
                offset-IsAt c offset header key e g head known (ap (λ x. x.file_path) same)
                  (ap (λ x. x.file_entry_offset) same) in
              move_to-Good V p s m all older io c offset header key buf here
                (ensure_merge_capacity io c.scan_segment (length buf) c.scan_store) at g
                (Going-Sound V p s m all older c g key e known).fits
                (buf-IsAt V c.scan_store p offset header key buf at body) refl
                (known ∙ ap some same) key_here
                (ensure-HasRoom c.scan_segment c.scan_store g.current io (length buf)))
            (λ different. skip-Good V p s m c offset g (λ j e' found at_p there.
              let same = ap (λ x. lookup x s.key_dir) (key_here j e' found at_p there) in
              let is_e : e' ≡ e = some-inj e' e (sym found ∙ same ∙ known) in
              let equal : entry_eq e here ≡ true = rw is_e at (entry_here j e' found at_p there) in
              absurd (ground (arith, equal, different))))

      move_entry-Good :
          EntryGood V p s m (MetAt V p s m c offset) (move_entry io buf here (key_end header) c)
      unfolding move_entry
      move_entry-Good =
          let panic = loop_ends (slice_panics c.scan_store) in
          let moved = move_if_indexed io buf key here c (lookup key c.scan_store.key_dir) in
          let Met = MetAt V p s m c offset in
          let stop : EntryGood V p s m Met panic = (c.scan_segment, g.grown) in
          if-EntryGood V p s m Met (ltb (length buf) 4) panic _ (λ e. stop)
            (λ e.
              if-EntryGood V p s m Met (stored_checksum buf == checksum (drop 4 buf)) _
                (next_entry c)
                (λ fine.
                  if-EntryGood V p s m Met
                    (leb header_size (key_end header) && leb (key_end header) (length buf)) moved
                    panic
                    (λ bounds.
                      move_if_indexed-Good (lookup key c.scan_store.key_dir)
                        (ap (lookup key) (sym g.grown.dir)))
                    (λ bounds. stop))
                (λ wrong. skip-Good V p s m c offset g (λ j e' found at_p there.
                  let right =
                    checksum-IsAt V c.scan_store p offset header j buf
                      (offset-IsAt c offset header j e' g head found at_p there) body in
                  absurd (ground (arith, right, wrong)))))

    merge_read-Good :
        (b : Bool) (o : Option Bytes)
        → read_at (file_of p c.scan_store.disk) offset (block_size header) ≡ o
        → EntryGood V p s m (MetAt V p s m c offset) (merge_read io here (key_end header) c b o)
    merge_read-Good false o e = broken_off-Good V p s m (λ j e. Unit {0}) c g
    merge_read-Good true none e = broken_off-Good V p s m (λ j e. Unit {0}) c g
    merge_read-Good true (some buf) e = move_entry-Good buf e

    pub merge_header-Good :
        EntryGood V p s m (MetAt V p s m c offset) (merge_header io p p offset header c)
    unfolding merge_header
    merge_header-Good =
        if-EntryGood V p s m (MetAt V p s m c offset) (stored_flag header == 0) _ (next_entry c)
          (λ live. merge_read-Good (io.entry_served p offset) _ refl)
          (λ deleted. skip-Good V p s m c offset g (λ j e found at_p there.
            let at = offset-IsAt c offset header j e g head found at_p there in
            absurd (ground (arith, at.flag, deleted))))
