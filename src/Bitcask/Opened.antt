-- ===== src/Bitcask/Opened.antt =====
-- bitcask/main.go: openMergeSegment, rotateMergeSegmentLocked and ensureMergeSegmentCapacityLocked leave
-- every file as it was.
use design_pocs.Common.{
  ℕ, ◌+◌, ◌≤◌, ◌<◌, ◌≡◌, ◌≢◌, suc, zero, inl, inr, refl, sym, ap, ◌∙◌, Bool, true, false, ◌&&◌,
  Bool-cases, Option, Option-cases, none, some, List, [], ◌∷◌, arith, Bytes, length, take_exact,
  lookup, Maybe, insert, lookup-insert, lookup-remove, lookup-insert_self, read_at, leb,
  if◌then◌else◌,
}
use design_pocs.Bitcask.Store.{
  FilePath, merge_data, merge_hint, path_eq, path_eq_iff, path_key, BitCask, create, file_of,
}
use design_pocs.Bitcask.Kept.{Handles, file_of-create}
use design_pocs.Bitcask.Segment.{
  MergeSegment, OpenOutcome, stat_fails, data_fails, hint_fails, data_size_fails, hint_size_fails,
  opens, MergeIo, data_path, without_hint, open_merge_segment, registered, rotate_merge_segment,
  ensure_merge_capacity,
}
use design_pocs.Bitcask.Grown.{Grown, Grown-refl, Current}

take_exact-le : (n : ℕ) (f x : Bytes) → take_exact n f ≡ some x → n ≤ length f
unfolding take_exact
take_exact-le zero f x e = omega arith
take_exact-le (suc n) [] x e = cc
take_exact-le (suc n) (y ∷ f) x e = elim (Option-cases (take_exact n f)) [
  | inl nothing ↦ ground arith
  | inr (r, found) ↦ omega (arith, take_exact-le n f r found)
]

pub read_at-le :
    (f : Bytes) (o n : ℕ) (x : Bytes) → 0 < n → read_at f o n ≡ some x → o + n ≤ length f
unfolding read_at
read_at-le f zero n x z e = omega (arith, take_exact-le n f x e)
read_at-le [] (suc o) n x z e = ground arith
read_at-le (y ∷ f) (suc o) n x z e = omega (arith, read_at-le f o n x z e)

file_of-without_hint :
    (p q : FilePath) (disk : List (FilePath × Bytes)) (o : Option Bytes)
    → lookup q disk ≡ o
    → file_of p (without_hint q disk o) ≡ file_of p disk
unfolding create
file_of-without_hint p q disk none e =
    ground (arith, lookup-remove q p (insert q [] disk), lookup-insert q p [] disk, path_eq_iff q p)
file_of-without_hint p q disk (some f) e = file_of-create p q disk

pub other_path : (p q : FilePath) → q ≢ p → path_eq p q ≡ false
other_path p q differ = elim (Bool-cases (path_eq p q)) [
  | inl same ↦ absurd (differ (sym ((path_eq_iff p q).0 same)))
  | inr apart ↦ apart
]

-- What an open gives: every file as it was, the same index, and a segment at the end of its file.
pub record HasOpened (n : ℕ) (s : BitCask) (r : BitCask × Option MergeSegment) : Type 0 where
  pub dir : r.0.key_dir ≡ s.key_dir
  pub count : r.0.file_cnt ≡ s.file_cnt
  pub offset : r.0.curr_offset ≡ s.curr_offset
  pub merges : r.0.merge_file_cnt ≡ s.merge_file_cnt
  pub files : (p : FilePath) → file_of p r.0.disk ≡ file_of p s.disk
  pub opened : (p : FilePath) → lookup p s.file_ptrs ≡ some p → lookup p r.0.file_ptrs ≡ some p
  pub filed_same : (p : FilePath) → p ≢ merge_data n → lookup p r.0.file_ptrs ≡ lookup p s.file_ptrs
  pub handles : Handles s → Handles r.0
  pub segment :
      Maybe
        (λ m.
          (m.id ≡ n)
          × (m.data_offset ≡ length (file_of (merge_data n) s.disk))
          × (lookup (data_path m) r.0.file_ptrs ≡ some (data_path m)))
        r.1

disk-HasOpened :
    (n : ℕ) (s : BitCask) (d : List (FilePath × Bytes))
    → ((p : FilePath) → file_of p d ≡ file_of p s.disk)
    → HasOpened n s (record s { disk = d }, none)
disk-HasOpened n s d files = record {
  dir = refl;
  count = refl;
  offset = refl;
  merges = refl;
  files = files;
  opened = λ p h. h;
  filed_same = λ p e. refl;
  handles = λ h. record { named = h.named };
  segment = tt;
}

pub open-HasOpened :
    (o : OpenOutcome) (n : ℕ) (s : BitCask) → HasOpened n s (registered (open_merge_segment o n s))
unfolding open_merge_segment
open-HasOpened stat_fails n s = disk-HasOpened n s s.disk (λ p. refl)
open-HasOpened data_fails n s = disk-HasOpened n s s.disk (λ p. refl)
open-HasOpened hint_fails n s =
    disk-HasOpened n s _
      (λ p. file_of-without_hint p (merge_data n) s.disk (lookup (merge_data n) s.disk) refl)
open-HasOpened data_size_fails n s = disk-HasOpened n s _ (λ p.
    file_of-create p (merge_hint n) (create (merge_data n) s.disk)
    ∙ file_of-create p (merge_data n) s.disk)
open-HasOpened hint_size_fails n s = disk-HasOpened n s _ (λ p.
    file_of-create p (merge_hint n) (create (merge_data n) s.disk)
    ∙ file_of-create p (merge_data n) s.disk)
open-HasOpened opens n s =
    let q = merge_data n in
    record {
      dir = refl;
      count = refl;
      offset = refl;
      merges = refl;
      files = λ p. file_of-create p (merge_hint n) (create q s.disk) ∙ file_of-create p q s.disk;
      opened = λ p h. ground (arith, lookup-insert q p q s.file_ptrs, path_eq_iff q p);
      filed_same = λ p e.
          let other : path_eq q p ≡ false = other_path q p e in
          ground (arith, lookup-insert q p q s.file_ptrs);
      handles = λ h. record {
        named =
            λ p g e. ground (arith, lookup-insert q p q s.file_ptrs, path_eq_iff q p, h.named p g);
      };
      segment = (
        refl,
        ap length (file_of-create q (merge_hint n) (create q s.disk) ∙ file_of-create q q s.disk),
        lookup-insert_self q q s.file_ptrs,
      );
    }

pub Maybe-map {κ μ ν} :
    {V : Type κ} (P : V → Type μ) (Q : V → Type ν)
    → ((v : V) → P v → Q v)
    → (o : Option V) → Maybe P o
    → Maybe Q o
Maybe-map P Q f none h = tt
Maybe-map P Q f (some v) h = f v h

-- A rotation gives a newer segment, or an error; the files and the index stay.
pub record HasRoom (m : MergeSegment) (s : BitCask) (r : BitCask × Option MergeSegment)
    : Type 0 where
  pub kept : Grown s m r.0 m
  pub segment : Maybe (λ k. Grown s m r.0 k × Current r.0 k) r.1

module _ (m : MergeSegment) (s : BitCask) (cur : Current s m) where
  abbrev next : BitCask
  next = record s { merge_file_cnt = s.merge_file_cnt + 1 }

  opened-Grown :
      (r : BitCask × Option MergeSegment)
      → HasOpened (s.merge_file_cnt + 1) next r
      → Grown s m r.0 m
  opened-Grown r h = record {
    dir = h.dir;
    count = h.count;
    offset = h.offset;
    opened = h.opened;
    handles = λ g. h.handles (record { named = g.named });
    ids = omega arith;
    settled = λ p o n x z d e q. e;
    content = λ p o n x z d e q. rw (h.files p) q;
    others = λ p d old. h.files p;
    filed_before =
        λ p old. h.filed_same p (λ e. omega (arith, old (s.merge_file_cnt + 1) e, cur.newest));
  }

  segment-Grown :
      (r : BitCask × Option MergeSegment)
      → HasOpened (s.merge_file_cnt + 1) next r
      → (k : MergeSegment)
      → (k.id ≡ s.merge_file_cnt + 1)
        × (k.data_offset ≡ length (file_of (merge_data (s.merge_file_cnt + 1)) s.disk))
        × (lookup (data_path k) r.0.file_ptrs ≡ some (data_path k))
      → Grown s m r.0 k × Current r.0 k
  segment-Grown r h k (number, size, filed) =
      let g = opened-Grown r h in
      (
        record {
          dir = g.dir;
          count = g.count;
          offset = g.offset;
          opened = g.opened;
          handles = g.handles;
          ids = omega (arith, cur.newest, number);
          settled = λ p o n x z d e q here.
              let same : p ≡ merge_data (s.merge_file_cnt + 1) = here ∙ ap merge_data number in
              let bound = read_at-le (file_of p s.disk) o n x z q in rw size (rw same at bound);
          content = g.content;
          others = g.others;
          filed_before = g.filed_before;
        },
        record { newest = number ∙ sym h.merges; filed = filed },
      )

  opened-HasRoom :
      (r : BitCask × Option MergeSegment) → HasOpened (s.merge_file_cnt + 1) next r → HasRoom m s r
  opened-HasRoom r h = record {
    kept = opened-Grown r h;
    segment = Maybe-map _ _ (segment-Grown r h) r.1 h.segment;
  }

  if-HasRoom :
      (b : Bool) (x y : BitCask × Option MergeSegment)
      → HasRoom m s x
      → HasRoom m s y
      → HasRoom m s (if b then x else y)
  if-HasRoom true x y h k = h
  if-HasRoom false x y h k = k

  rotate-HasRoom : (io : MergeIo) → HasRoom m s (rotate_merge_segment io m s)
  unfolding rotate_merge_segment
  rotate-HasRoom io =
      let n = s.merge_file_cnt + 1 in
      if-HasRoom (io.rotation_synced m.id && io.hint_closed m.id)
        (registered (open_merge_segment (io.opening n) n next)) (s, none)
        (opened-HasRoom _ (open-HasOpened (io.opening n) n next))
        (record { kept = Grown-refl s m; segment = tt })

  pub ensure-HasRoom : (io : MergeIo) (size : ℕ) → HasRoom m s (ensure_merge_capacity io m size s)
  unfolding ensure_merge_capacity
  ensure-HasRoom io size =
      if-HasRoom (leb (m.data_offset + size) s.max_file_size_bytes) (s, some m)
        (rotate_merge_segment io m s)
        (record { kept = Grown-refl s m; segment = (Grown-refl s m, cur) }) (rotate-HasRoom io)
