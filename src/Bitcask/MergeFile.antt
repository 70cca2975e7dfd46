-- ===== src/Bitcask/MergeFile.antt =====
-- bitcask/main.go: the loop of Merge over the entries of a file ends, with an update for every entry that
-- it reaches, or with an error.
use design_pocs.Common.{
  ℕ, zero, suc, ◌+◌, ◌<◌, ◌≡◌, ◌≢◌, ◌⊎◌, inl, inr, sym, ap, ◌∙◌, Bool, true, false, Option-cases,
  none, some, arith, Bytes, length, lookup, bytes_key, read_at, read_at-take, if◌then◌else◌,
}
use design_pocs.Bitcask.Record.{header_size, encode_entry}
use design_pocs.Bitcask.Store.{FilePath, path_key, KeyDirEntry, BitCask, file_of}
use design_pocs.Bitcask.Segment.{MergeSegment, MergeIo}
use design_pocs.Bitcask.Merge.{
  Scan, ScanEnd, scan_ended, without_segment, slice_panics, goes_on, broken_off, block_size,
  next_entry, loop_ends, merge_header, scan_file,
}
use design_pocs.Bitcask.Grown.{is_hint, IsOlder}
use design_pocs.Bitcask.MergeScan.{Reaches, EntryEnd-cases, merge_header-Good}
use design_pocs.Bitcask.Opened.{read_at-le}
use design_pocs.Bitcask.Scanned.{
  AllSound, Going, Covered, ScanGood, EntryGood, MetAt, broken_off-Good,
}
use design_pocs.Bitcask.Moved.{size_of, content-Sound, some-inj}

Reaches-snoc :
    (k : ℕ) (f : Bytes) (cur o : ℕ) (h : Bytes)
    → Reaches k f cur o
    → read_at f o header_size ≡ some h
    → Reaches (suc k) f cur (o + block_size h)
Reaches-snoc zero f cur o h same read = (h, rw same read, ap (λ x. x + block_size h) same)
Reaches-snoc (suc k) f cur o h (h', read', rest) read =
    (h', read', Reaches-snoc k f (cur + block_size h') o h rest read)

-- No header that the loop reaches stands for zero bytes, as sizes do whose sum has wrapped.
abbrev pub Moves : Bytes → Type 0
Moves f =
    (k o : ℕ) (h : Bytes) → Reaches k f 0 o → read_at f o header_size ≡ some h → block_size h ≢ 0

module _ (V : Bytes → Bytes) (p : FilePath) (s : BitCask) (m : MergeSegment)
    (all : AllSound V p s m s m) (older : IsOlder p m) (in_data : is_hint p ≡ false)
    (moves : Moves (file_of p s.disk)) where
  abbrev source : Bytes
  source = file_of p s.disk

  -- The entries that are covered, or that the loop reaches.
  abbrev pub MetFrom : Scan → ℕ → Bytes → KeyDirEntry → Type 0
  MetFrom c cur key e =
      Covered V p s m c key e
      ⊎ ((e.file_path ≡ p) × ((k : ℕ) × Reaches k source cur e.file_entry_offset))

  same_file : (c : Scan) → Going V p s m c → file_of p c.scan_store.disk ≡ source
  same_file c g = g.grown.others p in_data older

  weaken :
      (Met : Bytes → KeyDirEntry → Type 0) (end : ScanEnd)
      → ScanGood V p s m (λ key e. Unit {0}) end
      → ScanGood V p s m Met end
  weaken Met (scan_ended c) (g, covers) =
      (g, λ merged key e found met. covers merged key e found tt)
  weaken Met (without_segment t) h = h
  weaken Met (slice_panics t) h = h
  weaken Met goes_on h = elim h [ ]

  -- The file goes on where an entry of the index begins.
  not_ended :
      (cur : ℕ) (key : Bytes) (e : KeyDirEntry)
      → lookup key s.key_dir ≡ some e
      → e.file_path ≡ p
      → e.file_entry_offset ≡ cur
      → read_at source cur header_size ≢ none
  not_ended cur key e found at_p there nothing =
      let h = all key e found in
      let whole : read_at source cur (size_of key (V key))
          ≡ some (encode_entry h.held.timestamp key (V key) 0) =
        rw (at_p, there) at (content-Sound V s m key e h) in
      let front = read_at-take source cur header_size (size_of key (V key)) _ (omega arith) whole in
      absurd (ground (arith, front, nothing))

  ended_reach :
      (k cur : ℕ) (key : Bytes) (e : KeyDirEntry)
      → lookup key s.key_dir ≡ some e
      → e.file_path ≡ p
      → read_at source cur header_size ≡ none
      → Reaches k source cur e.file_entry_offset
      → ⊥
  ended_reach zero cur key e found at_p nothing same =
      not_ended cur key e found at_p (sym same) nothing
  ended_reach (suc k) cur key e found at_p nothing (h, read, rest) =
      absurd (ground (arith, read, nothing))

  -- Where the file ends no entry of the index begins.
  ended-Good :
      (c : Scan) (cur : ℕ)
      → Going V p s m c
      → read_at source cur header_size ≡ none
      → ScanGood V p s m (MetFrom c cur) (scan_ended c)
  ended-Good c cur g nothing = (
    g,
    λ merged key e found met. elim met [
      | inl covered ↦ covered
      | inr (at_p, (k, reached)) ↦ absurd (ended_reach k cur key e found at_p nothing reached)
    ],
  )

  step_reach :
      (c c' : Scan) (k cur : ℕ) (header key : Bytes) (e : KeyDirEntry)
      → read_at source cur header_size ≡ some header
      → (MetAt V p s m c cur key e → Covered V p s m c' key e)
      → e.file_path ≡ p
      → Reaches k source cur e.file_entry_offset
      → MetFrom c' (cur + block_size header) key e
  step_reach c c' zero cur header key e read step at_p same = inl (step (inr (at_p, sym same)))
  step_reach c c' (suc k) cur header key e read step at_p (h, read', rest) =
      let same : h ≡ header = some-inj h header (sym read' ∙ read) in
      inr (at_p, (k, rw same at rest))

  step_met :
      (c c' : Scan) (cur : ℕ) (header key : Bytes) (e : KeyDirEntry)
      → read_at source cur header_size ≡ some header
      → (MetAt V p s m c cur key e → Covered V p s m c' key e)
      → MetFrom c cur key e
      → MetFrom c' (cur + block_size header) key e
  step_met c c' cur header key e read step (inl covered) = inl (step (inl covered))
  step_met c c' cur header key e read step (inr (at_p, (k, reached))) =
      step_reach c c' k cur header key e read step at_p reached

  continue-Good :
      (c c' : Scan) (cur : ℕ) (header : Bytes)
      → read_at source cur header_size ≡ some header
      → ((key : Bytes) (e : KeyDirEntry)
          → lookup key s.key_dir ≡ some e
          → MetAt V p s m c cur key e
          → Covered V p s m c' key e)
      → (end : ScanEnd) → ScanGood V p s m (MetFrom c' (cur + block_size header)) end
      → ScanGood V p s m (MetFrom c cur) end
  continue-Good c c' cur header read step (scan_ended d) (g, covers) = (
    g,
    λ merged key e found met.
        covers merged key e found (step_met c c' cur header key e read (step key e found) met),
  )
  continue-Good c c' cur header read step (without_segment t) h = h
  continue-Good c c' cur header read step (slice_panics t) h = h
  continue-Good c c' cur header read step goes_on h = elim h [ ]

  if-ScanGood :
      (Met : Bytes → KeyDirEntry → Type 0) (b : Bool) (x y : ScanEnd)
      → ScanGood V p s m Met x
      → ScanGood V p s m Met y
      → ScanGood V p s m Met (if b then x else y)
  if-ScanGood Met true x y h k = h
  if-ScanGood Met false x y h k = k

  pub scan_file-Good :
      (fuel : ℕ) (io : MergeIo) (cur : ℕ) (c : Scan)
      → Going V p s m c
      → (k : ℕ) → Reaches k source 0 cur
      → 0 < fuel
      → length source < fuel + cur
      → ScanGood V p s m (MetFrom c cur) (scan_file fuel io p p cur c)
  unfolding scan_file
  scan_file-Good zero io cur c g k reached some_left enough = absurd (omega arith)
  scan_file-Good (suc fuel) io cur c g k reached some_left enough =
      if-ScanGood (MetFrom c cur) (io.header_served p cur) _ (broken_off c)
        (elim (Option-cases (read_at (file_of p c.scan_store.disk) cur header_size)) [
          | inl nothing ↦ rw nothing (
              ended-Good c cur g
                (ap (λ f. read_at f cur header_size) (sym (same_file c g)) ∙ nothing))
          | inr (header, head) ↦
              let read : read_at source cur header_size ≡ some header =
                ap (λ f. read_at f cur header_size) (sym (same_file c g)) ∙ head in
              let good = merge_header-Good V p s m all older io c cur header g head in
              let bound = read_at-le source cur header_size header (omega arith) read in
              let moved = moves k cur header reached read in
              rw head (elim (EntryEnd-cases (merge_header io p p cur header c)) [
                | inl (c', goes) ↦
                    let next : EntryGood V p s m (MetAt V p s m c cur) (next_entry c') =
                      rw goes at good in
                    let behind = cur + block_size header in
                    rw goes (
                      continue-Good c c' cur header read next.1 (scan_file fuel io p p behind c') (
                        scan_file-Good fuel io behind c' next.0 (suc k)
                          (Reaches-snoc k source 0 cur header reached read) (omega (arith, bound))
                          (omega (arith, moved))))
                | inr (end, ends) ↦
                    let last : EntryGood V p s m (MetAt V p s m c cur) (loop_ends end) =
                      rw ends at good in
                    rw ends (weaken (MetFrom c cur) end last)
              ])
        ])
        (weaken (MetFrom c cur) (broken_off c) (broken_off-Good V p s m (λ j e. Unit {0}) c g))
