-- ===== src/Bitcask/Scanned.antt =====
-- bitcask/main.go: the loop of Merge over the entries of a file.
use design_pocs.Common.{
  ℕ, ◌<◌, ◌^◌, ◌≡◌, ◌≢◌, ◌⊎◌, inl, inr, refl, sym, ap, ◌∙◌, Bool, true, false, Bool-cases, Option,
  none, some, List, [], ◌∷◌, arith, All, Bytes, length, lookup, Maybe, insert, insert-Every,
  lookup-insert, bytes_key, bytes_eq, bytes_eq_iff, if◌then◌else◌,
}
use design_pocs.Bitcask.Record.{encode_entry, length-encode_entry, stored_value_size}
use design_pocs.Bitcask.Store.{FilePath, merge_data, path_key, KeyDirEntry, BitCask}
use design_pocs.Bitcask.Segment.{MergeSegment, MergeIo, data_path, Appended, append_entry}
use design_pocs.Bitcask.Merge.{
  MergeUpdate, Scan, ScanEnd, scan_ended, without_segment, slice_panics, goes_on, broken_off,
  EntryEnd, next_entry, loop_ends, entry_appended, move_to,
}
use design_pocs.Bitcask.Grown.{IsOlder, Grown, Grown-trans, Current}
use design_pocs.Bitcask.Appended.{IsFresh, append_entry-HasAppended}
use design_pocs.Bitcask.Opened.{Maybe-map, HasRoom}
use design_pocs.Bitcask.Moved.{size_of, Sound, Sound-Grown, IsAt, some-inj}

-- The scan of a file `p` from a state `s`, `m`: the values that the keys have are `V`.
module _ (V : Bytes → Bytes) (p : FilePath) (s : BitCask) (m : MergeSegment) where
  -- A key is not in the index, or its entry is right.
  abbrev pub AllSound : BitCask → MergeSegment → Type 0
  AllSound t k = (key : Bytes) (e : KeyDirEntry) → lookup key s.key_dir ≡ some e → Sound V t k key e

  abbrev pub IsMoved : MergeSegment → BitCask → Bytes × MergeUpdate → Type 0
  IsMoved k t u =
      Sound V t k u.0 u.1.replacement
      × ((q : FilePath) → IsOlder q m → u.1.replacement.file_path ≢ q)

  pub record Going (c : Scan) : Type 0 where
    pub grown : Grown s m c.scan_store c.scan_segment
    pub current : Current c.scan_store c.scan_segment
    pub moved : All (IsMoved c.scan_segment c.scan_store) c.pending

  abbrev pub Covered : Scan → Bytes → KeyDirEntry → Type 0
  Covered c key e = (u : MergeUpdate) × (lookup key c.pending ≡ some u) × (u.original ≡ e)

  -- What the loop leaves if it stops here: a store in which every key has its value, and, if it has
  -- come to the end without an error, an update for each entry that it met.
  abbrev pub IsLeft : BitCask → Type 0
  IsLeft t = Grown s m t m

  abbrev pub ScanGood : (Bytes → KeyDirEntry → Type 0) → ScanEnd → Type 0
  ScanGood Met (scan_ended c) =
      Going c
      × (c.is_merged ≡ true
          → (key : Bytes) (e : KeyDirEntry) → lookup key s.key_dir ≡ some e
          → Met key e
          → Covered c key e)
  ScanGood Met (without_segment t) = (k : MergeSegment) × Grown s m t k
  ScanGood Met (slice_panics t) = (k : MergeSegment) × Grown s m t k
  ScanGood Met goes_on = ⊥

  abbrev pub EntryGood : (Bytes → KeyDirEntry → Type 0) → EntryEnd → Type 0
  EntryGood Met (next_entry c) =
      Going c
      × ((key : Bytes) (e : KeyDirEntry)
          → lookup key s.key_dir ≡ some e
          → Met key e
          → Covered c key e)
  EntryGood Met (loop_ends end) = ScanGood (λ key e. Unit {0}) end

  pub if-EntryGood :
      (Met : Bytes → KeyDirEntry → Type 0) (b : Bool) (x y : EntryEnd)
      → (b ≡ true → EntryGood Met x)
      → (b ≡ false → EntryGood Met y)
      → EntryGood Met (if b then x else y)
  if-EntryGood Met true x y h k = h refl
  if-EntryGood Met false x y h k = k refl

  pub broken_off-Good :
      (Met : Bytes → KeyDirEntry → Type 0) (c : Scan) → Going c → ScanGood Met (broken_off c)
  broken_off-Good Met c g =
      (record { grown = g.grown; current = g.current; moved = g.moved }, λ merged. cc)

  -- The entries that are covered, or begin here.
  abbrev pub MetAt : Scan → ℕ → Bytes → KeyDirEntry → Type 0
  MetAt c offset key e = Covered c key e ⊎ ((e.file_path ≡ p) × (e.file_entry_offset ≡ offset))

  -- Nothing that the index knows begins here.
  pub skip-Good :
      (c : Scan) (offset : ℕ)
      → Going c
      → ((key : Bytes) (e : KeyDirEntry)
          → lookup key s.key_dir ≡ some e
          → e.file_path ≡ p
          → e.file_entry_offset ≢ offset)
      → EntryGood (MetAt c offset) (next_entry c)
  skip-Good c offset g nothing = (
    g,
    λ key e found met. elim met [
      | inl covered ↦ covered
      | inr (here, there) ↦ absurd (nothing key e found here there)
    ],
  )

  module _ (all : AllSound s m) (older : IsOlder p m) where
    pub Going-Sound :
        (c : Scan)
        → Going c
        → (key : Bytes) (e : KeyDirEntry) → lookup key s.key_dir ≡ some e
        → Sound V c.scan_store c.scan_segment key e
    Going-Sound c g key e found =
        Sound-Grown V s c.scan_store m c.scan_segment key e g.grown (all key e found)

    IsMoved-Grown :
        (t t' : BitCask) (k k' : MergeSegment) (us : List (Bytes × MergeUpdate))
        → Grown t k t' k'
        → All (IsMoved k t) us
        → All (IsMoved k' t') us
    IsMoved-Grown t t' k k' [] g h = tt
    IsMoved-Grown t t' k k' (u ∷ us) g ((h, d), hs) =
        ((Sound-Grown V t t' k k' u.0 u.1.replacement g h, d), IsMoved-Grown t t' k k' us g hs)

    -- The key of an entry is moved.
    insert-Covered :
        (c : Scan) (key : Bytes) (here r : KeyDirEntry) (j : Bytes) (e : KeyDirEntry)
        → lookup key s.key_dir ≡ some here
        → lookup j s.key_dir ≡ some e
        → Covered c j e ⊎ (j ≡ key)
        → (u : MergeUpdate) × (lookup j
              (insert key (record { original = here; replacement = r }) c.pending)
            ≡ some u)
          × (u.original ≡ e)
    insert-Covered c key here r j e known found met = elim (Bool-cases (bytes_eq key j)) [
      | inl same ↦
          let new : MergeUpdate = record { original = here; replacement = r } in
          let key_is : key ≡ j = (bytes_eq_iff key j).0 same in
          (
            new,
            ground (arith, lookup-insert key j new c.pending),
            some-inj here e (sym known ∙ ap (λ x. lookup x s.key_dir) key_is ∙ found),
          )
      | inr differs ↦ elim met [
        | inl (u, there, is_e) ↦ (
          u,
          ground (
            arith,
            there,
            lookup-insert key j (record { original = here; replacement = r }) c.pending,
          ),
          is_e,
        )
        | inr same ↦ absurd (ground (arith, bytes_eq_iff key j))
      ]
    ]

    offsets-Grown :
        (t : BitCask) (k : MergeSegment) (x y : ℕ)
        → Grown t k (record t { merge_file_offset = x; merge_hint_file_offset = y }) k
    offsets-Grown t k x y = record {
      dir = refl;
      count = refl;
      offset = refl;
      opened = λ q h. h;
      handles = λ h. record { named = h.named };
      ids = omega arith;
      settled = λ q o n z w d h r. h;
      content = λ q o n z w d h r. r;
      others = λ q d old. refl;
      filed_before = λ q old. refl;
    }

    -- The entry that was appended.
    fresh-Sound :
        (c : Scan) (offset : ℕ) (header key buf : Bytes) (k : MergeSegment) (a : Appended)
        (e : KeyDirEntry) (at : IsAt V c.scan_store p offset header key)
        → size_of key (V key) < 2 ^ 32
        → buf ≡ encode_entry at.stamp key (V key) 0
        → Current a.store a.segment
        → a.segment.id ≡ k.id
        → IsFresh buf (stored_value_size header) k a e
        → Sound V a.store a.segment key e
    fresh-Sound c offset header key buf k a e at fits is_entry cur same
          (path, size, written, bound) =
        let v = V key in
        let len : length buf ≡ size_of key v =
          ap length is_entry ∙ length-encode_entry at.stamp key v 0 in
        let filed : lookup (data_path k) a.store.file_ptrs ≡ some (data_path k) =
          rw (ap merge_data same) at cur.filed in
        record {
          held = record {
            timestamp = at.stamp;
            key_fits = omega arith;
            value_fits = omega arith;
            sized = size ∙ at.value_size;
            written = record {
              opened = rw path filed;
              content = rw path (rw is_entry at written);
              settled = rw path tt;
            };
          };
          fits = fits;
          in_data = rw path refl;
          inside = λ here. omega (arith, len);
        }

    -- The scan behind a step of the store.
    abbrev stepped : Scan → BitCask → MergeSegment → Scan
    stepped c t k = record c { scan_store = t; scan_segment = k }

    stepped-Going :
        (c : Scan) (t : BitCask) (k : MergeSegment)
        → Going c
        → Grown c.scan_store c.scan_segment t k
        → Current t k
        → Going (stepped c t k)
    stepped-Going c t k g step cur = record {
      grown = Grown-trans g.grown step;
      current = cur;
      moved = IsMoved-Grown c.scan_store t c.scan_segment k c.pending step g.moved;
    }

    appended-Good :
        (c : Scan) (offset : ℕ) (key : Bytes) (here : KeyDirEntry) (o : Option KeyDirEntry)
        → Going c
        → lookup key s.key_dir ≡ some here
        → ((j : Bytes) (e : KeyDirEntry)
            → lookup j s.key_dir ≡ some e
            → e.file_path ≡ p
            → e.file_entry_offset ≡ offset
            → j ≡ key)
        → Maybe
            (λ e.
              IsMoved c.scan_segment c.scan_store
                (key, record { original = here; replacement = e }))
            o
        → EntryGood (MetAt c offset) (entry_appended key here c o)
    appended-Good c offset key here none g known unique fresh =
        broken_off-Good (λ j e. Unit {0}) c g
    appended-Good c offset key here (some r) g known unique fresh =
        let u : MergeUpdate = record { original = here; replacement = r } in
        (
          record {
            grown = g.grown;
            current = g.current;
            moved =
                insert-Every (IsMoved c.scan_segment c.scan_store) key u c.pending fresh g.moved;
          },
          λ j e found met. insert-Covered c key here r j e known found (elim met [
            | inl covered ↦ inl covered
            | inr (at_p, there) ↦ inr (unique j e found at_p there)
          ]),
        )

    pub move_to-Good :
        (io : MergeIo) (c : Scan) (offset : ℕ) (header key buf : Bytes) (here : KeyDirEntry)
        (r : BitCask × Option MergeSegment) (at : IsAt V c.scan_store p offset header key)
        → Going c
        → size_of key (V key) < 2 ^ 32
        → buf ≡ encode_entry at.stamp key (V key) 0
        → here.value_size ≡ stored_value_size header
        → lookup key s.key_dir ≡ some here
        → ((j : Bytes) (e : KeyDirEntry)
            → lookup j s.key_dir ≡ some e
            → e.file_path ≡ p
            → e.file_entry_offset ≡ offset
            → j ≡ key)
        → HasRoom c.scan_segment c.scan_store r
        → EntryGood (MetAt c offset) (move_to io buf key here c r)
    move_to-Good io c offset header key buf here (t, none) at g fits is_entry size known unique
          room =
        (c.scan_segment, Grown-trans g.grown room.kept)
    move_to-Good io c offset header key buf here (t, some k) at g fits is_entry size known unique
          room =
        let (ensured, cur) = room.segment in
        let a = append_entry io here buf key here.value_size k t in
        let h = append_entry-HasAppended io here buf key here.value_size k t in
        let data_end = a.segment.data_offset in
        let hint_end = a.segment.hint_offset in
        let behind = offsets-Grown a.store a.segment data_end hint_end in
        let step = Grown-trans (Grown-trans ensured h.grown) behind in
        let cur' = h.current cur in
        let c' =
          stepped c
            (record a.store { merge_file_offset = data_end; merge_hint_file_offset = hint_end })
            a.segment in
        appended-Good c' offset key here a.new_entry
          (stepped-Going c c'.scan_store a.segment g step
            (record { newest = cur'.newest; filed = cur'.filed }))
          known unique
          (Maybe-map _ _
            (λ e fresh.
              let (path, size', written, bound) = fresh in
              (
                Sound-Grown V a.store c'.scan_store a.segment a.segment key e behind (
                    fresh-Sound c offset header key buf k a e at fits is_entry cur' h.same_id
                      (path, size' ∙ size, written, bound)),
                λ q old same. omega (arith, g.grown.ids, ensured.ids, old k.id (sym same ∙ path)),
              ))
            a.new_entry h.fresh)
