-- ===== src/Bitcask/Kept.antt =====
-- bitcask/main.go: what an action leaves alone. Entries that lie below the write offset of the
-- active file, or in another file, are read back unchanged after it.
use design_pocs.Common.{
  ℕ, ◌+◌, ◌≤◌, ◌<◌, ◌≡◌, ◌⊎◌, inl, inr, Bool, true, false, Bool-cases, Option, Option-cases, none,
  some, List, [], arith, Bytes, length, take, lookup, insert, lookup-insert, lookup-insert_self,
  read_at, read_at-write_at_before, leb, ◌==◌, if◌then◌else◌,
}
use design_pocs.Bitcask.Record.{encode_entry}
use design_pocs.Bitcask.Store.{
  land, put_flag, PutError, open_failed, invalid_handle, FilePath, data_file, merge_data,
  merge_hint, path_eq, path_eq_iff, path_key, BitCask, Action, ◌>>◌, PutIo, WriteOutcome, wrote,
  failed, short, create, open_file, file_of, write_file, active_path, ensure_open, write_entry,
  index_entry, rotate,
}

-- Every handle is that of the path it is filed under.
pub record Handles (s : BitCask) : Type 0 where
  pub named : (p h : FilePath) → lookup p s.file_ptrs ≡ some h → h ≡ p

-- The bytes of a file up to `end` are never written again.
abbrev pub SettledAt : FilePath → ℕ → ℕ → ℕ → Type 0
SettledAt (data_file n) end cnt offset = (n < cnt) ⊎ ((n ≡ cnt) × (end ≤ offset))
SettledAt (merge_data n) end cnt offset = Unit {0}
SettledAt (merge_hint n) end cnt offset = Unit {0}

abbrev pub Settled : FilePath → ℕ → BitCask → Type 0
Settled p end s = SettledAt p end s.file_cnt s.curr_offset

pub record Kept (s t : BitCask) : Type 0 where
  pub opened : (p : FilePath) → lookup p s.file_ptrs ≡ some p → lookup p t.file_ptrs ≡ some p
  pub settled : (p : FilePath) (end : ℕ) → Settled p end s → Settled p end t
  pub content :
      (p : FilePath) (o n : ℕ) (x : Bytes)
      → Settled p (o + n) s
      → read_at (file_of p s.disk) o n ≡ some x
      → read_at (file_of p t.disk) o n ≡ some x

pub Kept-refl : (s : BitCask) → Kept s s
Kept-refl s = record { opened = λ p h. h; settled = λ p end h. h; content = λ p o n x h r. r }

pub Kept-trans : {s t u : BitCask} → Kept s t → Kept t u → Kept s u
Kept-trans f g = record {
  opened = λ p h. g.opened p (f.opened p h);
  settled = λ p end h. g.settled p end (f.settled p end h);
  content = λ p o n x h r. g.content p o n x (f.settled p (o + n) h) (f.content p o n x h r);
}

-- An action that keeps the handles right and the settled bytes.
pub record Keeps (m : Action) : Type 0 where
  pub at : (s : BitCask) → Handles s → Kept s (m s).0 × Handles (m s).0

pub Keeps-seq : (m k : Action) → Keeps m → Keeps k → Keeps (m >> k)
Keeps-seq m k km kk = record {
  at = λ s h.
      let (kept, handles) = km.at s h in
      elim (Option-cases (m s).1) [
        | inl fine ↦
            let (kept', handles') = kk.at (m s).0 handles in
            rw (fine, ◌>>◌) (Kept-trans kept kept', handles')
        | inr (e, error) ↦ rw (error, ◌>>◌) (kept, handles)
      ];
}

pub file_of-create :
    (p q : FilePath) (disk : List (FilePath × Bytes)) → file_of p (create q disk) ≡ file_of p disk
unfolding create
file_of-create p q disk = ground (arith, lookup-insert q p [] disk, path_eq_iff q p)

open_file-Kept : (q : FilePath) (s : BitCask) → Kept s (open_file q s)
open_file-Kept q s = record {
  opened = λ p h. ground (arith, lookup-insert q p q s.file_ptrs, path_eq_iff q p);
  settled = λ p end h. h;
  content = λ p o n x h r. rw file_of-create r;
}

open_file-Handles : (q : FilePath) (s : BitCask) → Handles s → Handles (open_file q s)
open_file-Handles q s h = record {
  named = λ p g e. ground (arith, lookup-insert q p q s.file_ptrs, path_eq_iff q p, h.named p g);
}

file_of-insert :
    (p q : FilePath) (b : Bytes) (disk : List (FilePath × Bytes))
    → file_of p (insert q b disk) ≡ (if path_eq q p then b else file_of p disk)
file_of-insert p q b disk = ground (arith, lookup-insert q p b disk)

pub file_of-insert_self :
    (p : FilePath) (b : Bytes) (disk : List (FilePath × Bytes)) → file_of p (insert p b disk) ≡ b
file_of-insert_self p b disk = ground (arith, lookup-insert_self p b disk)

settled_active :
    (p : FilePath) (end cnt offset : ℕ)
    → SettledAt p end cnt offset
    → path_eq (data_file cnt) p ≡ true
    → end ≤ offset
unfolding path_eq
settled_active (data_file n) end cnt offset h e = ground arith
settled_active (merge_data n) end cnt offset h e = cc
settled_active (merge_hint n) end cnt offset h e = cc

-- A write at the offset of the active file.
write_file-Kept : (b : Bytes) (s : BitCask) → Kept s (write_file (active_path s) s.curr_offset b s)
write_file-Kept b s = record {
  opened = λ p h. h;
  settled = λ p end h. h;
  content = λ p o n x h r. elim (Bool-cases (path_eq (active_path s) p)) [
    | inl here ↦
        let same : active_path s ≡ p = (path_eq_iff (active_path s) p).0 here in
        rw (file_of-insert, here)
          (rw same (
            read_at-write_at_before (file_of p s.disk) o n s.curr_offset b x
              (settled_active p (o + n) s.file_cnt s.curr_offset h here) r))
    | inr elsewhere ↦ rw (file_of-insert, elsewhere) r
  ];
}

write_file-Handles :
    (p : FilePath) (o : ℕ) (b : Bytes) (s : BitCask) → Handles s → Handles (write_file p o b s)
write_file-Handles p o b s h = record { named = h.named }

-- A result of an action that starts at `s`.
abbrev Good : BitCask → BitCask × Option PutError → Type 0
Good s r = Kept s r.0 × Handles r.0

Good-if :
    (s : BitCask) (b : Bool) (x y : BitCask × Option PutError)
    → Good s x
    → Good s y
    → Good s (if b then x else y)
Good-if s true x y gx gy = gx
Good-if s false x y gx gy = gy

Good-unchanged : (s : BitCask) (r : Option PutError) → Handles s → Good s (s, r)
Good-unchanged s r h = (Kept-refl s, h)

pub ensure_open-Keeps : (io : PutIo) → Keeps (ensure_open io)
unfolding ensure_open
ensure_open-Keeps io = record {
  at = λ s h.
      Good-if s (length s.file_ptrs == 0) _ _
        (Good-if s io.open_active _ _
          (open_file-Kept (active_path s) s, open_file-Handles (active_path s) s h)
          (Good-unchanged s (some open_failed) h))
        (Good-unchanged s none h);
}

land-Good :
    (w : WriteOutcome) (buf : Bytes) (s : BitCask)
    → Handles s
    → Good s (land w (active_path s) buf s)
unfolding land
land-Good wrote buf s h = (write_file-Kept buf s, write_file-Handles _ _ buf s h)
land-Good (failed n) buf s h =
    (write_file-Kept (take n buf) s, write_file-Handles _ _ (take n buf) s h)
land-Good (short n) buf s h =
    (write_file-Kept (take n buf) s, write_file-Handles _ _ (take n buf) s h)

pub write_entry-Keeps : (buf : Bytes) (io : PutIo) → Keeps (write_entry buf io)
unfolding write_entry
write_entry-Keeps buf io = record {
  at = λ s h. elim (Option-cases (lookup (active_path s) s.file_ptrs)) [
    | inl nil_handle ↦ rw (nil_handle, write_entry) (Good-unchanged s (some invalid_handle) h)
    | inr (handle, found) ↦
        rw (found, write_entry)
          (rw (h.named (active_path s) handle found) (land-Good io.write buf s h))
  ];
}

SettledAt-mono :
    (p : FilePath) (end cnt offset more : ℕ)
    → SettledAt p end cnt offset
    → SettledAt p end cnt (offset + more)
SettledAt-mono (data_file n) end cnt offset more h = omega arith
SettledAt-mono (merge_data n) end cnt offset more h = h
SettledAt-mono (merge_hint n) end cnt offset more h = h

SettledAt-next :
    (p : FilePath) (end cnt offset offset' : ℕ)
    → SettledAt p end cnt offset
    → SettledAt p end (cnt + 1) offset'
SettledAt-next (data_file n) end cnt offset offset' h = omega arith
SettledAt-next (merge_data n) end cnt offset offset' h = h
SettledAt-next (merge_hint n) end cnt offset offset' h = h

pub index_entry-Keeps : (key value : Bytes) (flag : ℕ) → Keeps (index_entry key value flag)
unfolding index_entry
index_entry-Keeps key value flag = record {
  at = λ s h. (
    record {
      opened = λ p e. e;
      settled = λ p end e. SettledAt-mono p end s.file_cnt s.curr_offset _ e;
      content = λ p o n x e r. r;
    },
    record { named = h.named },
  );
}

pub rotate-Keeps : (io : PutIo) → Keeps (rotate io)
unfolding rotate
rotate-Keeps io = record {
  at = λ s h.
      let next : BitCask = record s { file_cnt = s.file_cnt + 1 } in
      let path = active_path next in
      Good-if s (leb s.max_file_size_bytes s.curr_offset) _ _
        (Good-if s io.open_next _ _
          (
            record {
              opened = (open_file-Kept path next).opened;
              settled = λ p end e. SettledAt-next p end s.file_cnt s.curr_offset 0 e;
              content = λ p o n x e r.
                  (open_file-Kept path next).content p o n x
                    (SettledAt-next p (o + n) s.file_cnt s.curr_offset s.curr_offset e) r;
            },
            record { named = (open_file-Handles path next (record { named = h.named })).named },
          )
          (
            record {
              opened = λ p e. e;
              settled = λ p end e. SettledAt-next p end s.file_cnt s.curr_offset s.curr_offset e;
              content = λ p o n x e r. r;
            },
            record { named = h.named },
          ))
        (Good-unchanged s none h);
}

-- The whole of `put`, whatever the system answers.
pub put_flag-Keeps :
    (key value : Bytes) (flag : ℕ) (io : PutIo) → Keeps (put_flag key value flag io)
unfolding put_flag
put_flag-Keeps key value flag io = Keeps-seq _ _ (ensure_open-Keeps io) (
    Keeps-seq _ _ (write_entry-Keeps (encode_entry io.now key value flag) io)
      (Keeps-seq _ _ (index_entry-Keeps key value flag) (rotate-Keeps io)))
