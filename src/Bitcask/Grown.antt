-- ===== src/Bitcask/Grown.antt =====
-- bitcask/main.go: what the steps of a merge leave alone. Bytes below the offset of the segment, and in
-- every other data file, are read back unchanged.
use design_pocs.Common.{
  ℕ, ◌+◌, ◌≤◌, ◌<◌, ◌≡◌, inl, inr, refl, sym, ◌∙◌, Bool, true, false, Bool-cases, some, List, arith,
  Bytes, lookup, remove, insert, lookup-insert, lookup-remove, lookup-insert_self, read_at,
  write_at, read_at-write_at_before,
}
use design_pocs.Bitcask.Store.{
  FilePath, data_file, merge_data, merge_hint, path_eq, path_eq_iff, path_key, BitCask, file_of,
  write_file,
}
use design_pocs.Bitcask.Kept.{Handles}
use design_pocs.Bitcask.Segment.{MergeSegment, data_path, hint_path}

abbrev pub is_hint : FilePath → Bool
is_hint (data_file n) = false
is_hint (merge_data n) = false
is_hint (merge_hint n) = true

-- The bytes of a file up to `end` are not written again by the segment.
abbrev pub SettledIn : FilePath → ℕ → MergeSegment → Type 0
SettledIn p end m = p ≡ data_path m → end ≤ m.data_offset

-- A data file that is older than the segment.
abbrev pub IsOlder : FilePath → MergeSegment → Type 0
IsOlder p m = (n : ℕ) → p ≡ merge_data n → n < m.id

pub record Grown (s : BitCask) (m : MergeSegment) (t : BitCask) (k : MergeSegment) : Type 0 where
  pub dir : t.key_dir ≡ s.key_dir
  pub count : t.file_cnt ≡ s.file_cnt
  pub offset : t.curr_offset ≡ s.curr_offset
  pub opened : (p : FilePath) → lookup p s.file_ptrs ≡ some p → lookup p t.file_ptrs ≡ some p
  pub handles : Handles s → Handles t
  pub ids : m.id ≤ k.id
  pub settled :
      (p : FilePath) (o n : ℕ) (x : Bytes)
      → 0 < n
      → is_hint p ≡ false
      → SettledIn p (o + n) m
      → read_at (file_of p s.disk) o n ≡ some x
      → SettledIn p (o + n) k
  pub content :
      (p : FilePath) (o n : ℕ) (x : Bytes)
      → 0 < n
      → is_hint p ≡ false
      → SettledIn p (o + n) m
      → read_at (file_of p s.disk) o n ≡ some x
      → read_at (file_of p t.disk) o n ≡ some x
  pub others :
      (p : FilePath) → is_hint p ≡ false → IsOlder p m → file_of p t.disk ≡ file_of p s.disk
  pub filed_before : (p : FilePath) → IsOlder p m → lookup p t.file_ptrs ≡ lookup p s.file_ptrs

-- The segment is the newest, and its handle is in the map.
pub record Current (s : BitCask) (m : MergeSegment) : Type 0 where
  pub newest : m.id ≡ s.merge_file_cnt
  pub filed : lookup (data_path m) s.file_ptrs ≡ some (data_path m)

pub Grown-refl : (s : BitCask) (m : MergeSegment) → Grown s m s m
Grown-refl s m = record {
  dir = refl;
  count = refl;
  offset = refl;
  opened = λ p h. h;
  handles = λ h. h;
  ids = omega arith;
  settled = λ p o n x z d h r. h;
  content = λ p o n x z d h r. r;
  others = λ p d old. refl;
  filed_before = λ p old. refl;
}

pub Grown-trans :
    {s t u : BitCask} {m k l : MergeSegment} → Grown s m t k → Grown t k u l → Grown s m u l
Grown-trans f g = record {
  dir = g.dir ∙ f.dir;
  count = g.count ∙ f.count;
  offset = g.offset ∙ f.offset;
  opened = λ p h. g.opened p (f.opened p h);
  handles = λ h. g.handles (f.handles h);
  ids = omega (arith, f.ids, g.ids);
  settled = λ p o n x z d h r.
      g.settled p o n x z d (f.settled p o n x z d h r) (f.content p o n x z d h r);
  content = λ p o n x z d h r.
      g.content p o n x z d (f.settled p o n x z d h r) (f.content p o n x z d h r);
  others = λ p d old. g.others p d (λ n e. omega (arith, old n e, f.ids)) ∙ f.others p d old;
  filed_before =
      λ p old. g.filed_before p (λ n e. omega (arith, old n e, f.ids)) ∙ f.filed_before p old;
}

pub merge_data-path_eq :
    (p q : FilePath) → is_hint p ≡ false → is_hint q ≡ true → path_eq q p ≡ false
unfolding path_eq
merge_data-path_eq p q h k = ground arith

pub file_of-insert_ne :
    (p q : FilePath) (b : Bytes) (disk : List (FilePath × Bytes))
    → path_eq q p ≡ false
    → file_of p (insert q b disk) ≡ file_of p disk
file_of-insert_ne p q b disk h = ground (arith, lookup-insert q p b disk)

pub file_of-insert_eq :
    (p : FilePath) (b : Bytes) (disk : List (FilePath × Bytes)) → file_of p (insert p b disk) ≡ b
file_of-insert_eq p b disk = ground (arith, lookup-insert_self p b disk)

pub file_of-remove :
    (p q : FilePath) (disk : List (FilePath × Bytes))
    → path_eq q p ≡ false
    → file_of p (remove q disk) ≡ file_of p disk
file_of-remove p q disk h = ground (arith, lookup-remove q p disk)

-- A step that changes nothing but files.
disk-Grown :
    (d : List (FilePath × Bytes)) (m : MergeSegment) (s : BitCask)
    → ((p : FilePath) (o n : ℕ) (x : Bytes)
        → 0 < n
        → is_hint p ≡ false
        → SettledIn p (o + n) m
        → read_at (file_of p s.disk) o n ≡ some x
        → read_at (file_of p d) o n ≡ some x)
    → ((p : FilePath) → is_hint p ≡ false → IsOlder p m → file_of p d ≡ file_of p s.disk)
    → Grown s m (record s { disk = d }) m
disk-Grown d m s content others = record {
  dir = refl;
  count = refl;
  offset = refl;
  opened = λ p h. h;
  handles = λ h. record { named = h.named };
  ids = omega arith;
  settled = λ p o n x z d h r. h;
  content = content;
  others = others;
  filed_before = λ p old. refl;
}

-- A write to the hint file.
pub hint_write-Grown :
    (o : ℕ) (b : Bytes) (m : MergeSegment) (s : BitCask)
    → Grown s m (write_file (hint_path m) o b s) m
hint_write-Grown o b m s =
    disk-Grown _ m s
      (λ p i n x z d h r.
        rw
          (file_of-insert_ne p (hint_path m) (write_at (file_of (hint_path m) s.disk) o b) s.disk
            (merge_data-path_eq p (hint_path m) d refl))
          r)
      (λ p d old.
        file_of-insert_ne p (hint_path m) (write_at (file_of (hint_path m) s.disk) o b) s.disk
          (merge_data-path_eq p (hint_path m) d refl))

pub older-path_eq :
    (p : FilePath) (m : MergeSegment) → IsOlder p m → path_eq (data_path m) p ≡ false
older-path_eq p m old = elim (Bool-cases (path_eq (data_path m) p)) [
  | inl same ↦ absurd (omega (arith, old m.id (sym ((path_eq_iff (data_path m) p).0 same))))
  | inr differs ↦ differs
]

-- A write to the data file, at the offset.
pub data_write-Grown :
    (b : Bytes) (m : MergeSegment) (s : BitCask)
    → Grown s m (write_file (data_path m) m.data_offset b s) m
data_write-Grown b m s =
    disk-Grown _ m s
      (λ p i n x z d h r. elim (Bool-cases (path_eq (data_path m) p)) [
        | inl here ↦
            let same : data_path m ≡ p = (path_eq_iff (data_path m) p).0 here in
            let f = file_of p s.disk in
            rw (same, file_of-insert_eq p (write_at f m.data_offset b) s.disk)
              (read_at-write_at_before f i n m.data_offset b x (h (sym same)) r)
        | inr elsewhere ↦
            rw
              (file_of-insert_ne p (data_path m)
                (write_at (file_of (data_path m) s.disk) m.data_offset b) s.disk elsewhere)
              r
      ])
      (λ p d old.
        file_of-insert_ne p (data_path m) (write_at (file_of (data_path m) s.disk) m.data_offset b)
          s.disk (older-path_eq p m old))

-- The offset of a segment moves on.
pub advance-Grown :
    (s t : BitCask) (m : MergeSegment) (more hint : ℕ)
    → Grown s m t m
    → Grown s m t (record m { data_offset = m.data_offset + more; hint_offset = hint })
advance-Grown s t m more hint g = record {
  dir = g.dir;
  count = g.count;
  offset = g.offset;
  opened = g.opened;
  handles = g.handles;
  ids = g.ids;
  settled = λ p o n x z d h r e. omega (arith, g.settled p o n x z d h r e);
  content = g.content;
  others = g.others;
  filed_before = g.filed_before;
}
