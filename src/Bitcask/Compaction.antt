-- ===== src/Bitcask/Compaction.antt =====
-- bitcask/main.go: Merge is not seen by Get.
use design_pocs.Common.{
  ℕ, ◌≤◌, ◌<◌, ◌^◌, ◌≡◌, ◌≢◌, ◌⊎◌, inl, inr, refl, sym, ap, ◌∙◌, false, Bool-cases, Option,
  Option-cases, none, some, List, [], ◌∷◌, arith, All, Bytes, length, lookup, bytes_key,
}
use design_pocs.Bitcask.Store.{
  FilePath, merge_data, path_eq, path_eq_iff, path_key, KeyDirEntry, BitCask, file_of, active_path,
  reads_well, Reply, value, failure, get,
}
use design_pocs.Bitcask.Invariant.{Stored, Inv}
use design_pocs.Bitcask.Refinement.{get_unknown, get_known, Unseen}
use design_pocs.Bitcask.Segment.{MergeSegment, MergeIo, data_path, open_merge_segment, registered}
use design_pocs.Bitcask.Merge.{
  MergeEnd, merging, merge_panics, merge_loops, merge_immutable_files, immutable_files, merge_ended,
  MergeResult, merged, panicked, loops, merge_opened, merge,
}
use design_pocs.Bitcask.Grown.{is_hint}
use design_pocs.Bitcask.Opened.{HasOpened, open-HasOpened, read_at-le}
use design_pocs.Bitcask.Moved.{size_of, Sound}
use design_pocs.Bitcask.MergeScan.{Reaches}
use design_pocs.Bitcask.MergeFile.{Moves}
use design_pocs.Bitcask.Record.{length-encode_entry}
use design_pocs.Bitcask.Merged.{merge_immutable_files-Good}
use design_pocs.Bitcask.MergePass.{IsReady, FileGood}

-- A store that Merge can go over: its invariant holds, entries are shorter than 4 GiB, no handle is that of
-- a hint file or of a later segment, and each entry of the index is reached from the beginning of its file
-- over the headers before it, of which none stands for zero bytes.
pub record Mergeable (s : BitCask) : Type 0 where
  pub inv : Inv s
  pub fits :
      (key v : Bytes) (e : KeyDirEntry)
      → lookup key s.key_dir ≡ some e
      → Stored s key e v
      → size_of key v < 2 ^ 32
  pub in_data : (q h : FilePath) → lookup q s.file_ptrs ≡ some h → is_hint q ≡ false
  pub numbered :
      (n : ℕ) (h : FilePath) → lookup (merge_data n) s.file_ptrs ≡ some h → n ≤ s.merge_file_cnt
  pub moves : (q h : FilePath) → lookup q s.file_ptrs ≡ some h → Moves (file_of q s.disk)
  pub reached :
      (key : Bytes) (e : KeyDirEntry)
      → lookup key s.key_dir ≡ some e
      → (k : ℕ) × Reaches k (file_of e.file_path s.disk) 0 e.file_entry_offset

MergeResult-cases :
    (x : MergeResult)
    → ((t : BitCask) × (x ≡ merged t)) ⊎ (((t : BitCask) × (x ≡ panicked t)) ⊎ (x ≡ loops))
MergeResult-cases (merged t) = inl (t, refl)
MergeResult-cases (panicked t) = inr (inl (t, refl))
MergeResult-cases loops = inr (inr refl)

-- The value that Get returns.
abbrev pub got_value : Reply → Bytes
got_value (value v) = v
got_value (failure e) = []

abbrev pub value_in : BitCask → Bytes → Bytes
value_in s key = got_value (get key reads_well s)

module _ (s : BitCask) (ok : Mergeable s) where
  value_in-Stored :
      (key : Bytes) (e : KeyDirEntry)
      → lookup key s.key_dir ≡ some e
      → Stored s key e (value_in s key)
  value_in-Stored key e found =
      let (v, st) = ok.inv.indexed key e found in rw (get_known key v s found st) st

  served-Unseen :
      (t : BitCask)
      → ((key : Bytes) (e : KeyDirEntry)
          → lookup key t.key_dir ≡ some e
          → Stored t key e (value_in s key))
      → ((key : Bytes) → lookup key t.key_dir ≡ none → lookup key s.key_dir ≡ none)
      → ((key : Bytes) → lookup key s.key_dir ≡ none → lookup key t.key_dir ≡ none)
      → Unseen s t
  served-Unseen t held keys no_keys j = elim (Option-cases (lookup j s.key_dir)) [
    | inl absent ↦
        get_unknown j reads_well t (no_keys j absent) ∙ sym (get_unknown j reads_well s absent)
    | inr (e, found) ↦ elim (Option-cases (lookup j t.key_dir)) [
      | inl lost ↦ absurd (ground (arith, keys j lost, found))
      | inr (e', there) ↦
          get_known j (value_in s j) t there (held j e' there)
          ∙ sym (get_known j (value_in s j) s found (value_in-Stored j e found))
    ]
  ]

  module _ (r : BitCask × Option MergeSegment) (n : ℕ) (h : HasOpened n s r) where
    opened-Stored :
        (key : Bytes) (e : KeyDirEntry)
        → lookup key r.0.key_dir ≡ some e
        → Stored r.0 key e (value_in s key)
    opened-Stored key e found =
        let was = ap (lookup key) (sym h.dir) ∙ found in
        let st = value_in-Stored key e was in
        record {
          timestamp = st.timestamp;
          key_fits = st.key_fits;
          value_fits = st.value_fits;
          sized = st.sized;
          written = record {
            opened = h.opened e.file_path st.written.opened;
            content = rw (h.files e.file_path) st.written.content;
            settled = rw (h.count, h.offset) st.written.settled;
          };
        }

    opened-Sound :
        (m : MergeSegment)
        → m.id ≡ n
        → m.data_offset ≡ length (file_of (merge_data n) s.disk)
        → (key : Bytes) (e : KeyDirEntry) → lookup key r.0.key_dir ≡ some e
        → Sound (value_in s) r.0 m key e
    opened-Sound m number size key e found =
        let was = ap (lookup key) (sym h.dir) ∙ found in
        let st = value_in-Stored key e was in
        let v = value_in s key in
        let len = length-encode_entry st.timestamp key v 0 in
        record {
          held = opened-Stored key e found;
          fits = ok.fits key v e was st;
          in_data = ok.in_data e.file_path e.file_path st.written.opened;
          inside = λ here.
              let same : e.file_path ≡ merge_data n = here ∙ ap merge_data number in
              let bound =
                read_at-le (file_of e.file_path s.disk) e.file_entry_offset (length _) _
                  (omega (arith, len)) st.written.content in
              rw size (rw same at rw len at bound);
        }

    opened-Ready :
        (m : MergeSegment) (q g : FilePath)
        → m.id ≡ n
        → n ≡ s.merge_file_cnt
        → lookup q r.0.file_ptrs ≡ some g
        → q ≢ data_path m
        → IsReady (value_in s) r.0 m q
    opened-Ready m q g number newest filed other =
        let apart : q ≢ merge_data n = λ e. other (e ∙ ap merge_data (sym number)) in
        let same = h.filed_same q apart in
        record {
          in_data = ok.in_data q g (sym same ∙ filed);
          older = λ j e.
              let bound = ok.numbered j g (rw e at (sym same ∙ filed)) in
              let other_number : j ≢ n = λ j_is_n. apart (e ∙ ap merge_data j_is_n) in
              omega (arith, bound, number, newest, other_number);
          moves = λ g' filed'. rw (h.files q) (ok.moves q g' (sym same ∙ filed'));
          reached = λ g' filed' key e found at_q.
              let (k, met) = ok.reached key e (ap (lookup key) (sym h.dir) ∙ found) in
              (k, rw (h.files q) (rw at_q at met));
        }

  found_later :
      (ptrs : List (FilePath × FilePath)) (q h q' : FilePath)
      → lookup q' ptrs ≢ none
      → lookup q' ((q, h) ∷ ptrs) ≢ none
  unfolding lookup
  found_later ptrs q h q' there gone = ground arith

  found_first :
      (ptrs : List (FilePath × FilePath)) (q h : FilePath) → lookup q ((q, h) ∷ ptrs) ≢ none
  unfolding lookup
  found_first ptrs q h gone = ground (arith, path_eq_iff q q)

  -- A file in the list is open, and is not that of the segment.
  abbrev IsImmutable : List (FilePath × FilePath) → FilePath → FilePath → Type 0
  IsImmutable ptrs segment q = (lookup q ptrs ≢ none) × (q ≢ segment)

  immutable_files-All :
      (full ptrs : List (FilePath × FilePath)) (active segment : FilePath)
      → ((q : FilePath) → lookup q ptrs ≢ none → lookup q full ≢ none)
      → All (IsImmutable full segment) (immutable_files active segment ptrs)
  unfolding lookup
  immutable_files-All full [] active segment known = tt
  immutable_files-All full ((q, h) ∷ ptrs) active segment known =
      let rest =
        immutable_files-All full ptrs active segment
          (λ q' there. known q' (found_later ptrs q h q' there)) in
      elim (Bool-cases (path_eq q active)) [
        | inl is_active ↦ rw is_active rest
        | inr immutable ↦ elim (Bool-cases (path_eq q segment)) [
          | inl is_segment ↦ rw (immutable, is_segment) rest
          | inr other ↦
              rw (immutable, other)
                (
                  (known q (found_first ptrs q h), λ same. ground (arith, path_eq_iff q segment)),
                  rest,
                )
        ]
      ]

  Ready-list :
      (r : BitCask × Option MergeSegment) (n : ℕ) (h : HasOpened n s r) (m : MergeSegment)
      (qs : List FilePath)
      → m.id ≡ n
      → n ≡ s.merge_file_cnt
      → All (IsImmutable r.0.file_ptrs (data_path m)) qs
      → All (IsReady (value_in s) r.0 m) qs
  Ready-list r n h m [] number newest all = tt
  Ready-list r n h m (q ∷ qs) number newest ((open_yet, other), all) = (
    elim (Option-cases (lookup q r.0.file_ptrs)) [
      | inl gone ↦ absurd (open_yet gone)
      | inr (g, filed) ↦ opened-Ready r n h m q g number newest filed other
    ],
    Ready-list r n h m qs number newest all,
  )

  -- Merge comes back, or panics, with a store that reads the same.
  abbrev IsSame : MergeResult → Type 0
  IsSame (merged t) = Unseen s t
  IsSame (panicked t) = Unseen s t
  IsSame loops = ⊥

  ended-IsSame :
      (t : BitCask) (m : MergeSegment) (end : MergeEnd)
      → ((key : Bytes) → lookup key t.key_dir ≡ none → lookup key s.key_dir ≡ none)
      → ((key : Bytes) → lookup key s.key_dir ≡ none → lookup key t.key_dir ≡ none)
      → FileGood (value_in s) t m end
      → IsSame (merge_ended end)
  ended-IsSame t m (merging u k) keys no_keys after =
      served-Unseen u (λ key e found. (after.serves.sound key e found).held)
        (λ key gone. keys key (after.serves.keys key gone))
        (λ key gone. after.serves.no_keys key (no_keys key gone))
  ended-IsSame t m (merge_panics u) keys no_keys (k, serves) =
      served-Unseen u (λ key e found. (serves.sound key e found).held)
        (λ key gone. keys key (serves.keys key gone))
        (λ key gone. serves.no_keys key (no_keys key gone))
  ended-IsSame t m merge_loops keys no_keys h = elim h [ ]

  opened-IsSame :
      (io : MergeIo) (active : FilePath) (r : BitCask × Option MergeSegment)
      → HasOpened s.merge_file_cnt s r
      → IsSame (merge_opened io active r)
  opened-IsSame io active (t, none) h =
      served-Unseen t (opened-Stored (t, none) s.merge_file_cnt h)
        (λ key gone. ap (lookup key) (sym h.dir) ∙ gone) (λ key gone. ap (lookup key) h.dir ∙ gone)
  opened-IsSame io active (t, some m) h =
      let n = s.merge_file_cnt in
      let (number, size, filed) = h.segment in
      let files = immutable_files active (data_path m) t.file_ptrs in
      ended-IsSame t m (merge_immutable_files io files t m)
        (λ key gone. ap (lookup key) (sym h.dir) ∙ gone) (λ key gone. ap (lookup key) h.dir ∙ gone)
        (merge_immutable_files-Good (value_in s) io files t m
          (opened-Sound (t, some m) n h m number size) (h.handles ok.inv.handles)
          (record { newest = number ∙ sym h.merges; filed = filed })
          (Ready-list (t, some m) n h m files number refl
            (immutable_files-All t.file_ptrs t.file_ptrs active (data_path m) (λ q there. there))))

-- On a store with its invariant, whose open handles are those of data files, with no merge file numbered
-- above mergeFileCnt, whose indexed entries have fewer than 2 ^ 32 bytes each and are met from the
-- beginning of their files on over the headers before them, and in whose open files no header that is met
-- so stands for zero bytes, Merge comes back or panics, whatever the system answers, and every key reads
-- as before.
pub merge-Unseen :
    (io : MergeIo) (s : BitCask)
    → Mergeable s
    → (t : BitCask) × ((merge io s ≡ merged t) ⊎ (merge io s ≡ panicked t)) × Unseen s t
unfolding merge
merge-Unseen io s ok =
    let n = s.merge_file_cnt in
    let r = registered (open_merge_segment (io.opening n) n s) in
    let same = opened-IsSame s ok io (active_path s) r (open-HasOpened (io.opening n) n s) in
    elim (MergeResult-cases (merge_opened io (active_path s) r)) [
      | inl (t, ends) ↦ (t, inl ends, rw ends at same)
      | inr (inl (t, ends)) ↦ (t, inr ends, rw ends at same)
      | inr (inr ends) ↦ absurd (rw ends at same)
    ]
