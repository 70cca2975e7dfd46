-- ===== src/Bitcask/Moved.antt =====
-- bitcask/main.go: what Merge knows while it goes over the entries of a file.
use design_pocs.Common.{
  ℕ, ◌+◌, ◌<◌, ◌^◌, ◌≡◌, sym, ap, ◌∙◌, true, false, some, arith, Bytes, length, take, drop,
  bytes_key, read_at, read_at-take, u32,
}
use design_pocs.Bitcask.Record.{
  header_size, slice, encode_entry, length-encode_entry, stored_key_size, stored_value_size,
  stored_flag, stored_key_size-encode_entry, stored_value_size-encode_entry,
  stored_flag-encode_entry, key-encode_entry, stored_checksum, stored_checksum-encode_entry,
}
use design_pocs.Bitcask.Checksum.{checksum}
use design_pocs.Bitcask.Store.{FilePath, path_eq_iff, path_key, KeyDirEntry, BitCask, file_of}
use design_pocs.Bitcask.Kept.{SettledAt}
use design_pocs.Bitcask.Invariant.{Stored}
use design_pocs.Bitcask.Segment.{MergeSegment}
use design_pocs.Bitcask.Merge.{entry_eq, block_size, key_end}
use design_pocs.Bitcask.Grown.{is_hint, Grown, SettledIn}

-- The bytes of an entry with this key and value.
abbrev pub size_of : Bytes → Bytes → ℕ
size_of key v = header_size + length key + length v

-- The entry of a key is a record of its value, in a data file, below the offset of the segment.
pub record Sound (V : Bytes → Bytes) (s : BitCask) (m : MergeSegment) (key : Bytes)
    (e : KeyDirEntry) : Type 0 where
  pub held : Stored s key e (V key)
  pub fits : size_of key (V key) < 2 ^ 32
  pub in_data : is_hint e.file_path ≡ false
  pub inside : SettledIn e.file_path (e.file_entry_offset + size_of key (V key)) m

pub content-Sound :
    (V : Bytes → Bytes) (s : BitCask) (m : MergeSegment) (key : Bytes) (e : KeyDirEntry)
    (h : Sound V s m key e)
    → read_at (file_of e.file_path s.disk) e.file_entry_offset (size_of key (V key))
      ≡ some (encode_entry h.held.timestamp key (V key) 0)
content-Sound V s m key e h =
    rw (length-encode_entry h.held.timestamp key (V key) 0) at h.held.written.content

pub settled-Sound :
    (V : Bytes → Bytes) (s : BitCask) (m : MergeSegment) (key : Bytes) (e : KeyDirEntry)
    (h : Sound V s m key e)
    → SettledAt e.file_path (e.file_entry_offset + size_of key (V key)) s.file_cnt s.curr_offset
settled-Sound V s m key e h =
    rw (length-encode_entry h.held.timestamp key (V key) 0) at h.held.written.settled

pub Sound-Grown :
    (V : Bytes → Bytes) (s t : BitCask) (m k : MergeSegment) (key : Bytes) (e : KeyDirEntry)
    → Grown s m t k
    → Sound V s m key e
    → Sound V t k key e
Sound-Grown V s t m k key e g h =
    let st = h.held in
    let len = length-encode_entry st.timestamp key (V key) 0 in
    let content = content-Sound V s m key e h in
    let n = size_of key (V key) in
    record {
      held = record {
        timestamp = st.timestamp;
        key_fits = st.key_fits;
        value_fits = st.value_fits;
        sized = st.sized;
        written = record {
          opened = g.opened e.file_path st.written.opened;
          content = rw len (
              g.content e.file_path e.file_entry_offset n _ (omega arith) h.in_data h.inside
                content);
          settled = rw (len, g.count, g.offset) (settled-Sound V s m key e h);
        };
      };
      fits = h.fits;
      in_data = h.in_data;
      inside =
          g.settled e.file_path e.file_entry_offset n _ (omega arith) h.in_data h.inside content;
    }

-- What the header at an offset says, when the index has an entry there.
pub record IsAt (V : Bytes → Bytes) (s : BitCask) (p : FilePath) (offset : ℕ) (header key : Bytes)
    : Type 0 where
  pub stamp : ℕ
  pub whole :
      read_at (file_of p s.disk) offset (size_of key (V key))
      ≡ some (encode_entry stamp key (V key) 0)
  pub key_size : stored_key_size header ≡ length key
  pub value_size : stored_value_size header ≡ length (V key)
  pub flag : stored_flag header ≡ 0
  pub block : block_size header ≡ size_of key (V key)
  pub end_of_key : key_end header ≡ header_size + length key

pub some-inj {ℓ} : {A : Type ℓ} (a b : A) → some a ≡ some b → a ≡ b
some-inj a b e = ground arith

u32_id : (n : ℕ) → n < 2 ^ 32 → u32 n ≡ n
u32_id n h = omega arith

pub Sound-IsAt :
    (V : Bytes → Bytes) (s : BitCask) (m : MergeSegment) (p : FilePath) (offset : ℕ)
    (header key : Bytes) (e : KeyDirEntry)
    → read_at (file_of p s.disk) offset header_size ≡ some header
    → e.file_path ≡ p
    → e.file_entry_offset ≡ offset
    → Sound V s m key e
    → IsAt V s p offset header key
Sound-IsAt V s m p offset header key e read here there h =
    let st = h.held in
    let v = V key in
    let b = encode_entry st.timestamp key v 0 in
    let whole : read_at (file_of p s.disk) offset (size_of key v) ≡ some b =
      rw (here, there) at (content-Sound V s m key e h) in
    let front =
      read_at-take (file_of p s.disk) offset header_size (size_of key v) b (omega arith) whole in
    let same : header ≡ take header_size b =
      some-inj header (take header_size b) (sym read ∙ front) in
    let ks : stored_key_size header ≡ length key =
      ap stored_key_size same ∙ stored_key_size-encode_entry st.timestamp key v 0 st.key_fits in
    let vs : stored_value_size header ≡ length v =
      ap stored_value_size same
      ∙ stored_value_size-encode_entry st.timestamp key v 0 st.value_fits in
    record {
      stamp = st.timestamp;
      whole = whole;
      key_size = ks;
      value_size = vs;
      flag = ap stored_flag same ∙ stored_flag-encode_entry st.timestamp key v 0;
      block = rw (ks, vs) (u32_id (size_of key v) h.fits);
      end_of_key = rw ks (u32_id (header_size + length key) (omega (arith, h.fits)));
    }

pub entry_eq-eq : (a b : KeyDirEntry) → entry_eq a b ≡ true → a ≡ b
unfolding entry_eq
entry_eq-eq a b h =
    let x : a.file_path ≡ b.file_path = (path_eq_iff a.file_path b.file_path).0 (ground arith) in
    let y : a.file_entry_offset ≡ b.file_entry_offset = ground arith in
    let z : a.value_size ≡ b.value_size = ground arith in cc

pub entry_eq_refl :
    (a b : KeyDirEntry)
    → a.file_path ≡ b.file_path
    → a.file_entry_offset ≡ b.file_entry_offset
    → a.value_size ≡ b.value_size
    → entry_eq a b ≡ true
unfolding entry_eq
entry_eq_refl a b x y z = ground (arith, path_eq_iff a.file_path b.file_path)

pub buf-IsAt :
    (V : Bytes → Bytes) (s : BitCask) (p : FilePath) (offset : ℕ) (header key buf : Bytes)
    (at : IsAt V s p offset header key)
    → read_at (file_of p s.disk) offset (block_size header) ≡ some buf
    → buf ≡ encode_entry at.stamp key (V key) 0
buf-IsAt V s p offset header key buf at read =
    some-inj buf (encode_entry at.stamp key (V key) 0) (sym (rw at.block at read) ∙ at.whole)

pub key-IsAt :
    (V : Bytes → Bytes) (s : BitCask) (p : FilePath) (offset : ℕ) (header key buf : Bytes)
    → IsAt V s p offset header key
    → read_at (file_of p s.disk) offset (block_size header) ≡ some buf
    → slice header_size (key_end header) buf ≡ key
key-IsAt V s p offset header key buf at read =
    rw (at.end_of_key, buf-IsAt V s p offset header key buf at read)
      (key-encode_entry at.stamp key (V key) 0)

pub checksum-IsAt :
    (V : Bytes → Bytes) (s : BitCask) (p : FilePath) (offset : ℕ) (header key buf : Bytes)
    → IsAt V s p offset header key
    → read_at (file_of p s.disk) offset (block_size header) ≡ some buf
    → stored_checksum buf ≡ checksum (drop 4 buf)
checksum-IsAt V s p offset header key buf at read =
    rw (buf-IsAt V s p offset header key buf at read)
      (stored_checksum-encode_entry at.stamp key (V key) 0)
