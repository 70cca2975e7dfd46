-- ===== src/Bitcask/Written.antt =====
-- bitcask/main.go: the two ways in which `put` can end. Either an error came before the index was
-- touched, or the entry is in the file and the index has been updated.
use design_pocs.Common.{
  ℕ, ◌+◌, ◌≡◌, ◌≢◌, inl, inr, refl, ap, ◌∙◌, bytes_key, Option, Option-cases, none, some, List,
  arith, Bytes, length, lookup, insert, remove, read_at, read_at-write_at_self, u32, ◌==◌,
  if◌then◌else◌,
}
use design_pocs.Bitcask.Record.{encode_entry, length-encode_entry}
use design_pocs.Bitcask.Store.{
  FilePath, path_key, KeyDirEntry, BitCask, ◌>>◌, PutIo, PutError, WriteOutcome, wrote, failed,
  short, file_of, write_file, active_path, land, ensure_open, write_entry, index_entry, rotate,
  put_flag, seq_ok, seq_error, seq_same, invalid_handle,
}
use design_pocs.Bitcask.Kept.{
  Handles, Settled, Kept, file_of-insert_self, ensure_open-Keeps, rotate-Keeps,
}

pub record Written (t : BitCask) (path : FilePath) (offset : ℕ) (buf : Bytes) : Type 0 where
  pub opened : lookup path t.file_ptrs ≡ some path
  pub content : read_at (file_of path t.disk) offset (length buf) ≡ some buf
  pub settled : Settled path (offset + length buf) t

pub Written-Kept :
    {s t : BitCask} {path : FilePath} {offset : ℕ} {buf : Bytes}
    → Kept s t
    → Written s path offset buf
    → Written t path offset buf
Written-Kept {path} {offset} {buf} k w = record {
  opened = k.opened path w.opened;
  content = k.content path offset (length buf) buf w.settled w.content;
  settled = k.settled path (offset + length buf) w.settled;
}

-- The index after an entry at this place.
abbrev pub updated :
    Bytes → Bytes → ℕ → FilePath → ℕ → List (Bytes × KeyDirEntry) → List (Bytes × KeyDirEntry)
updated key value flag path offset dir =
    if flag == 0
    then insert key
        (record { file_path = path; file_entry_offset = offset; value_size = u32 (length value) })
        dir
    else remove key dir

pub data PutTo (key value : Bytes) (flag : ℕ) (io : PutIo) (s t : BitCask) (r : Option PutError)
    : Type 0 where
  stopped : t.key_dir ≡ s.key_dir → r ≢ none → PutTo key value flag io s t r
  stored :
      (path : FilePath) (offset : ℕ)
      → t.key_dir ≡ updated key value flag path offset s.key_dir
      → Written t path offset (encode_entry io.now key value flag)
      → PutTo key value flag io s t r

PutTo-from :
    {key value : Bytes} {flag : ℕ} {io : PutIo} {s s' t : BitCask} {r : Option PutError}
    → s'.key_dir ≡ s.key_dir
    → PutTo key value flag io s' t r
    → PutTo key value flag io s t r
PutTo-from e (stopped same error) = stopped (same ∙ e) error
PutTo-from {key} {value} {flag} e (stored path offset dir written) =
    stored path offset (dir ∙ ap (updated key value flag path offset) e) written

key_dir-ensure_open : (io : PutIo) (s : BitCask) → (ensure_open io s).0.key_dir ≡ s.key_dir
unfolding ensure_open
key_dir-ensure_open io s = ground arith

key_dir-rotate : (io : PutIo) (s : BitCask) → (rotate io s).0.key_dir ≡ s.key_dir
unfolding rotate
key_dir-rotate io s = ground arith

pub index_entry-fine :
    (key value : Bytes) (flag : ℕ) (s : BitCask)
    → index_entry key value flag s ≡ ((index_entry key value flag s).0, none)
unfolding index_entry
index_entry-fine key value flag s = refl

index_entry-Handles :
    (key value : Bytes) (flag : ℕ) (s : BitCask)
    → Handles s
    → Handles (index_entry key value flag s).0
unfolding index_entry
index_entry-Handles key value flag s h = record { named = h.named }

key_dir-index_entry :
    (key value : Bytes) (flag : ℕ) (s : BitCask)
    → (index_entry key value flag s).0.key_dir
      ≡ updated key value flag (active_path s) s.curr_offset s.key_dir
unfolding index_entry
key_dir-index_entry key value flag s = refl

pub write_entry-nil :
    (b : Bytes) (io : PutIo) (s : BitCask)
    → lookup (active_path s) s.file_ptrs ≡ none
    → write_entry b io s ≡ (s, some invalid_handle)
unfolding write_entry
write_entry-nil b io s e = rw (e, write_entry)

pub write_entry-found :
    (b : Bytes) (io : PutIo) (s : BitCask) (handle : FilePath)
    → lookup (active_path s) s.file_ptrs ≡ some handle
    → write_entry b io s ≡ land io.write handle b s
unfolding write_entry
write_entry-found b io s handle e = rw (e, write_entry)

module _ (key value : Bytes) (flag : ℕ) (io : PutIo) where
  abbrev buf : Bytes
  buf = encode_entry io.now key value flag

  -- The bytes are in the file, and the index and the offset are moved past them.
  index_entry-Written :
      (s : BitCask)
      → lookup (active_path s) s.file_ptrs ≡ some (active_path s)
      → Written
          (index_entry key value flag (write_file (active_path s) s.curr_offset buf s)).0
          (active_path s)
          s.curr_offset
          buf
  unfolding index_entry
  index_entry-Written s found = record {
    opened = found;
    content =
        rw (file_of-insert_self (active_path s) _ s.disk)
          (read_at-write_at_self (file_of (active_path s) s.disk) s.curr_offset buf);
    settled = inr (refl, omega (arith, length-encode_entry io.now key value flag));
  }

  finish :
      (s : BitCask)
      → Handles s
      → lookup (active_path s) s.file_ptrs ≡ some (active_path s)
      → let r =
          (index_entry key value flag >> rotate io)
            (write_file (active_path s) s.curr_offset buf s) in
        PutTo key value flag io s r.0 r.1
  finish s h found =
      let w = write_file (active_path s) s.curr_offset buf s in
      let t = (index_entry key value flag w).0 in
      let handles = index_entry-Handles key value flag w (record { named = h.named }) in
      let kept = (rotate-Keeps io).at t handles in
      rw (seq_ok (index_entry key value flag) (rotate io) w t (index_entry-fine key value flag w)) (
        stored (active_path s) s.curr_offset
          (key_dir-rotate io t ∙ key_dir-index_entry key value flag w)
          (Written-Kept kept.0 (index_entry-Written s found)))

  -- The outcomes of the write.
  after_land :
      (w : WriteOutcome) (s : BitCask)
      → Handles s
      → lookup (active_path s) s.file_ptrs ≡ some (active_path s)
      → let r = (land w (active_path s) buf >> index_entry key value flag >> rotate io) s in
        PutTo key value flag io s r.0 r.1
  unfolding land
  after_land wrote s h found = finish s h found
  after_land (failed n) s h found = stopped refl (λ e. cc)
  after_land (short n) s h found = stopped refl (λ e. cc)

  after_open :
      (s : BitCask)
      → Handles s
      → let r = (write_entry buf io >> index_entry key value flag >> rotate io) s in
        PutTo key value flag io s r.0 r.1
  after_open s h = elim (Option-cases (lookup (active_path s) s.file_ptrs)) [
    | inl nil_handle ↦
        rw
          (seq_error (write_entry buf io) (index_entry key value flag >> rotate io) s s
            invalid_handle (write_entry-nil buf io s nil_handle))
          (stopped refl (λ e. cc))
    | inr (handle, found) ↦
        let known : handle ≡ active_path s = h.named (active_path s) handle found in
        let open_active : lookup (active_path s) s.file_ptrs ≡ some (active_path s) =
          found ∙ ap some known in
        rw
          (seq_same (write_entry buf io) (land io.write (active_path s) buf)
            (index_entry key value flag >> rotate io) s s
            (write_entry-found buf io s (active_path s) open_active))
          (after_land io.write s h open_active)
  ]

  -- Every call of `put` ends in one of the two ways.
  pub put_flag-PutTo :
      (s : BitCask)
      → Handles s
      → let r = put_flag key value flag io s in PutTo key value flag io s r.0 r.1
  unfolding put_flag
  put_flag-PutTo s h =
      let opened = (ensure_open-Keeps io).at s h in
      elim (Option-cases (ensure_open io s).1) [
        | inl fine ↦
            rw (fine, ◌>>◌)
              (PutTo-from (key_dir-ensure_open io s) (after_open (ensure_open io s).0 opened.1))
        | inr (e, error) ↦
            rw (error, ◌>>◌) (stopped (key_dir-ensure_open io s) (λ none_is_some. cc))
      ]
