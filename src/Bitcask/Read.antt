-- ===== src/Bitcask/Read.antt =====
-- bitcask/main.go: what Get returns for a key that the index knows.
use design_pocs.Common.{
  ℕ, ◌+◌, ◌≡◌, ap, ◌∙◌, some, true, arith, Bytes, bytes_key, beq_refl, length, take, drop, lookup,
  read_at, read_at-take, ==_refl,
}
use design_pocs.Bitcask.Checksum.{checksum}
use design_pocs.Bitcask.Record.{
  header_size, encode_entry, length-encode_entry, stored_key_size, stored_value_size, stored_flag,
  stored_checksum-encode_entry, stored_key_size-encode_entry, stored_value_size-encode_entry,
  stored_flag-encode_entry, key-encode_entry, value-encode_entry,
}
use design_pocs.Bitcask.Store.{
  FilePath, KeyDirEntry, BitCask, path_key, reads_well, value, file_of, read_file, check_entry,
  read_entry,
}
use design_pocs.Bitcask.Invariant.{Stored}

read_file-Written :
    (s : BitCask) (path : FilePath) (offset n : ℕ)
    → lookup path s.file_ptrs ≡ some path
    → read_file true path offset n s ≡ read_at (file_of path s.disk) offset n
unfolding read_file
read_file-Written s path offset n e = rw (e, read_file)

check_entry-encode_entry :
    (timestamp : ℕ) (key v : Bytes)
    → check_entry key (length key) 0 (encode_entry timestamp key v 0) ≡ value v
unfolding check_entry
check_entry-encode_entry timestamp key v =
    let buf = encode_entry timestamp key v 0 in
    rw
      (
        stored_checksum-encode_entry timestamp key v 0,
        ==_refl (checksum (drop 4 buf)),
        key-encode_entry timestamp key v 0,
        beq_refl bytes_key key,
      )
      (ap value (value-encode_entry timestamp key v 0))

read_entry-reads :
    (s : BitCask) (key header buf : Bytes) (e : KeyDirEntry)
    → read_file true e.file_path e.file_entry_offset header_size s ≡ some header
    → read_file true e.file_path e.file_entry_offset
        (header_size + stored_key_size header + stored_value_size header)
        s
      ≡ some buf
    → read_entry key e reads_well s
      ≡ check_entry key (stored_key_size header) (stored_flag header) buf
unfolding read_entry
read_entry-reads s key header buf e h b = rw (h, read_entry) (rw b)

module _ (s : BitCask) (key v : Bytes) (e : KeyDirEntry) (st : Stored s key e v) where
  buf : Bytes
  buf = encode_entry st.timestamp key v 0

  read_header :
      read_file true e.file_path e.file_entry_offset header_size s ≡ some (take header_size buf)
  unfolding buf
  read_header =
      read_file-Written s e.file_path e.file_entry_offset header_size st.written.opened
      ∙ read_at-take (file_of e.file_path s.disk) e.file_entry_offset header_size (length buf) buf
          (omega (arith, length-encode_entry st.timestamp key v 0)) st.written.content

  read_whole :
      read_file true e.file_path e.file_entry_offset (header_size + length key + length v) s
      ≡ some buf
  unfolding buf
  read_whole =
      read_file-Written s e.file_path e.file_entry_offset _ st.written.opened
      ∙ rw (length-encode_entry st.timestamp key v 0) at st.written.content

-- A key whose entry is stored is read back, through all the checks of Get.
pub read_entry-Stored :
    (s : BitCask) (key v : Bytes) (e : KeyDirEntry)
    → Stored s key e v
    → read_entry key e reads_well s ≡ value v
unfolding buf
read_entry-Stored s key v e st =
    let b = encode_entry st.timestamp key v 0 in
    let key_size = stored_key_size-encode_entry st.timestamp key v 0 st.key_fits in
    let value_size = stored_value_size-encode_entry st.timestamp key v 0 st.value_fits in
    read_entry-reads s key (take header_size b) b e (read_header s key v e st)
      (rw (key_size, value_size) (read_whole s key v e st))
    ∙ rw (key_size, stored_flag-encode_entry st.timestamp key v 0)
        (check_entry-encode_entry st.timestamp key v)
