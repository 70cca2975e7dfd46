-- ===== src/Bitcask/MergePass.antt =====
-- bitcask/main.go: Merge over one file, with what it does behind the loop.
use design_pocs.Common.{
  ℕ, ◌≤◌, ◌≡◌, ◌≢◌, inl, inr, refl, sym, ap, ◌∙◌, false, Bool-cases, none, some, List, arith, Bytes,
  lookup, remove, lookup-remove, bytes_key,
}
use design_pocs.Bitcask.Store.{
  FilePath, data_file, merge_data, merge_hint, path_eq, path_key, KeyDirEntry, BitCask, file_of,
}
use design_pocs.Bitcask.Kept.{Handles}
use design_pocs.Bitcask.Segment.{MergeSegment, MergeIo, data_path}
use design_pocs.Bitcask.Merge.{
  MergeUpdate, Scan, apply_updates, remove_file, remove_hint, MergeEnd, merging, merge_panics,
  merge_loops,
}
use design_pocs.Bitcask.Grown.{is_hint, IsOlder, merge_data-path_eq, Grown, Current, file_of-remove}
use design_pocs.Bitcask.Opened.{other_path}
use design_pocs.Bitcask.Moved.{Sound, Sound-Grown}
use design_pocs.Bitcask.Scanned.{AllSound, Going, Going-Sound}
use design_pocs.Bitcask.MergeScan.{Reaches}
use design_pocs.Bitcask.MergeFile.{Moves}
use design_pocs.Bitcask.MergeIndex.{From, From-refl, apply_updates-From, covered-Replaced}

file_of-remove_file :
    (io : MergeIo) (q p : FilePath) (disk : List (FilePath × Bytes))
    → path_eq p q ≡ false
    → file_of q (remove_file io p disk) ≡ file_of q disk
file_of-remove_file io q p disk apart = elim (Bool-cases (io.removed p)) [
  | inl gone ↦ rw gone (file_of-remove q p disk apart)
  | inr stays ↦ rw stays refl
]

file_of-removed :
    (io : MergeIo) (p q : FilePath) (disk : List (FilePath × Bytes))
    → is_hint q ≡ false
    → path_eq p q ≡ false
    → file_of q (remove_hint io p (remove_file io p disk)) ≡ file_of q disk
file_of-removed io (data_file n) q disk in_data apart =
    file_of-remove_file io q (data_file n) disk apart
file_of-removed io (merge_data n) q disk in_data apart =
    file_of-remove_file io q (merge_hint n) (remove_file io (merge_data n) disk)
      (merge_data-path_eq q (merge_hint n) in_data refl)
    ∙ file_of-remove_file io q (merge_data n) disk apart
file_of-removed io (merge_hint n) q disk in_data apart =
    file_of-remove_file io q (merge_hint n) (remove_file io (merge_hint n) disk) apart
    ∙ file_of-remove_file io q (merge_hint n) disk apart

module _ (V : Bytes → Bytes) where
  -- Every key of `s` has its value in `t`, and `t` has no other key.
  pub record Serves (s t : BitCask) (k : MergeSegment) : Type 0 where
    pub sound : (key : Bytes) (e : KeyDirEntry) → lookup key t.key_dir ≡ some e → Sound V t k key e
    pub keys : (key : Bytes) → lookup key t.key_dir ≡ none → lookup key s.key_dir ≡ none
    pub no_keys : (key : Bytes) → lookup key s.key_dir ≡ none → lookup key t.key_dir ≡ none

  -- What Merge has done up to here: the files that are open yet and older than the segment are as they were,
  -- and so are the entries that stand in them.
  pub record After (s : BitCask) (m : MergeSegment) (t : BitCask) (k : MergeSegment) : Type 0 where
    pub serves : Serves s t k
    pub current : Current t k
    pub handles : Handles t
    pub ids : m.id ≤ k.id
    pub others :
        (q h : FilePath)
        → is_hint q ≡ false
        → IsOlder q m
        → lookup q t.file_ptrs ≡ some h
        → (lookup q s.file_ptrs ≡ some h) × (file_of q t.disk ≡ file_of q s.disk)
    pub entries :
        (q : FilePath) (key : Bytes) (e : KeyDirEntry)
        → IsOlder q m
        → lookup key t.key_dir ≡ some e
        → e.file_path ≡ q
        → lookup key s.key_dir ≡ some e

  -- A file whose entries are met from its beginning on.
  pub record IsReady (s : BitCask) (m : MergeSegment) (q : FilePath) : Type 0 where
    pub in_data : is_hint q ≡ false
    pub older : IsOlder q m
    pub moves : (h : FilePath) → lookup q s.file_ptrs ≡ some h → Moves (file_of q s.disk)
    pub reached :
        (h : FilePath)
        → lookup q s.file_ptrs ≡ some h
        → (key : Bytes) (e : KeyDirEntry) → lookup key s.key_dir ≡ some e
        → e.file_path ≡ q
        → (k : ℕ) × Reaches k (file_of q s.disk) 0 e.file_entry_offset

  -- The results of a part of Merge.
  abbrev pub FileGood : BitCask → MergeSegment → MergeEnd → Type 0
  FileGood s m (merging t k) = After s m t k
  FileGood s m (merge_panics t) = (k : MergeSegment) × Serves s t k
  FileGood s m merge_loops = ⊥

  pub Grown-Serves :
      (s t : BitCask) (m k : MergeSegment) → Serves s s m → Grown s m t k → Serves s t k
  Grown-Serves s t m k h g = record {
    sound = λ key e found.
        Sound-Grown V s t m k key e g (h.sound key e (ap (lookup key) (sym g.dir) ∙ found));
    keys = λ key gone. ap (lookup key) (sym g.dir) ∙ gone;
    no_keys = λ key gone. ap (lookup key) g.dir ∙ gone;
  }

  -- An entry in another file than the one that is removed.
  Sound-removed :
      (io : MergeIo) (s : BitCask) (k : MergeSegment) (p : FilePath)
      (dir : List (Bytes × KeyDirEntry)) (x y : ℕ) (key : Bytes) (e : KeyDirEntry)
      → e.file_path ≢ p
      → Sound V s k key e
      → Sound V
          (record s {
            key_dir = dir;
            file_ptrs = remove p s.file_ptrs;
            disk = remove_hint io p (remove_file io p s.disk);
            merge_file_offset = x;
            merge_hint_file_offset = y;
          })
          k
          key
          e
  Sound-removed io s k p dir x y key e other h =
      let q = e.file_path in
      let apart : path_eq p q ≡ false = other_path p q other in
      let w = h.held.written in
      record {
        held = record {
          timestamp = h.held.timestamp;
          key_fits = h.held.key_fits;
          value_fits = h.held.value_fits;
          sized = h.held.sized;
          written = record {
            opened = ground (arith, w.opened, lookup-remove p q s.file_ptrs);
            content = rw (file_of-removed io p q s.disk h.in_data apart) w.content;
            settled = w.settled;
          };
        };
        fits = h.fits;
        in_data = h.in_data;
        inside = h.inside;
      }

  module _ (io : MergeIo) (p : FilePath) (s : BitCask) (m : MergeSegment)
      (sound : AllSound V p s m s m) (handles : Handles s) (older : IsOlder p m) where
    -- The file stays, and so does the index.
    pub kept-After : (c : Scan) → Going V p s m c → After s m c.scan_store c.scan_segment
    kept-After c g =
        let gr = g.grown in
        record {
          serves =
              Grown-Serves s c.scan_store m c.scan_segment
                (record { sound = sound; keys = λ key gone. gone; no_keys = λ key gone. gone }) gr;
          current = g.current;
          handles = gr.handles handles;
          ids = gr.ids;
          others = λ q h in_data old there.
              (sym (gr.filed_before q old) ∙ there, gr.others q in_data old);
          entries = λ q key e old found at_q. ap (lookup key) (sym gr.dir) ∙ found;
        }

    -- What holds of an entry that was moved.
    abbrev New : Scan → Bytes → KeyDirEntry → Type 0
    New c key e =
        Sound V c.scan_store c.scan_segment key e × ((q : FilePath) → IsOlder q m → e.file_path ≢ q)

    pub removed-After :
        (c : Scan)
        → Going V p s m c
        → ((key : Bytes) (e : KeyDirEntry)
            → lookup key s.key_dir ≡ some e
            → e.file_path ≡ p
            → (u : MergeUpdate) × (lookup key c.pending ≡ some u) × (u.original ≡ e))
        → After s m
            (record c.scan_store {
              key_dir = apply_updates c.pending c.scan_store.key_dir;
              file_ptrs = remove p c.scan_store.file_ptrs;
              disk = remove_hint io p (remove_file io p c.scan_store.disk);
              merge_file_offset = c.scan_segment.data_offset;
              merge_hint_file_offset = c.scan_segment.hint_offset;
            })
            c.scan_segment
    removed-After c g covers =
        let t = c.scan_store in
        let k = c.scan_segment in
        let gr = g.grown in
        let dir = apply_updates c.pending t.key_dir in
        let from : From (New c) t.key_dir dir =
          apply_updates-From (New c) c.pending t.key_dir t.key_dir g.moved
            (From-refl (New c) t.key_dir) in
        record {
          serves = record {
            sound = λ key e found. elim (from.entries key e found) [
              | inl before ↦
                  let was : lookup key s.key_dir ≡ some e = ap (lookup key) (sym gr.dir) ∙ before in
                  let elsewhere : e.file_path ≢ p = λ at_p.
                    let (u, there, is_e) = covers key e was at_p in
                    (covered-Replaced (New c) c.pending t.key_dir key u e g.moved there before is_e
                        e found).1
                      p older at_p in
                  Sound-removed io t k p dir k.data_offset k.hint_offset key e elsewhere
                    (Going-Sound V p s m sound older c g key e was)
              | inr (held, new) ↦
                  Sound-removed io t k p dir k.data_offset k.hint_offset key e (new p older) held
            ];
            keys = λ key gone. ap (lookup key) (sym gr.dir) ∙ from.keys key gone;
            no_keys = λ key gone. from.no_keys key (ap (lookup key) gr.dir ∙ gone);
          };
          current = record {
            newest = g.current.newest;
            filed =
                let apart =
                  other_path p (data_path k)
                    (λ same. omega (arith, older k.id (sym same), gr.ids)) in
                ground (arith, lookup-remove p (data_path k) t.file_ptrs, g.current.filed, apart);
          };
          handles = record {
            named = λ q h there.
                ground (arith, lookup-remove p q t.file_ptrs, (gr.handles handles).named q h);
          };
          ids = gr.ids;
          others = λ q h in_data old there.
              let apart : path_eq p q ≡ false = ground (arith, lookup-remove p q t.file_ptrs) in
              let filed : lookup q t.file_ptrs ≡ some h =
                ground (arith, lookup-remove p q t.file_ptrs) in
              (
                sym (gr.filed_before q old) ∙ filed,
                file_of-removed io p q t.disk in_data apart ∙ gr.others q in_data old,
              );
          entries = λ q key e old found at_q. elim (from.entries key e found) [
            | inl before ↦ ap (lookup key) (sym gr.dir) ∙ before
            | inr (held, new) ↦ absurd (new q old at_q)
          ];
        }
