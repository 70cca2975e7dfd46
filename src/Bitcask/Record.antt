-- ===== src/Bitcask/Record.antt =====
-- bitcask/main.go: the layout of an entry in a data file,
-- crc(4) tstamp(4) ksz(4) vsz(4) flag(1) key value.
use design_pocs.Common.{
  ℕ, ◌+◌, ◌-◌, ◌^◌, ◌<◌, ◌≡◌, refl, [], ◌∷◌, ◌++◌, arith, Bytes, length, take, drop, length-append,
  take-append, drop-append, drop-add, u32, put_u32, get_u32, get_u32-put_u32,
}
use design_pocs.Bitcask.Checksum.{checksum, checksum-lt}

abbrev pub header_size : ℕ
header_size = 17

-- buf[lo:hi]
abbrev pub slice : ℕ → ℕ → Bytes → Bytes
slice lo hi b = take (hi - lo) (drop lo b)

-- What `put` writes behind the checksum: buf[4:].
unfoldable pub entry_body : ℕ → Bytes → Bytes → ℕ → Bytes
entry_body timestamp key value flag =
    put_u32 (u32 timestamp)
    ++ (put_u32 (u32 (length key)) ++ (put_u32 (u32 (length value)) ++ (flag ∷ (key ++ value))))

unfoldable pub encode_entry : ℕ → Bytes → Bytes → ℕ → Bytes
encode_entry timestamp key value flag =
    let body = entry_body timestamp key value flag in put_u32 (checksum body) ++ body

-- The fields that the readers take out of the first 17 bytes, and of a whole entry.
abbrev pub stored_key_size : Bytes → ℕ
stored_key_size header = get_u32 (slice 8 12 header)

abbrev pub stored_value_size : Bytes → ℕ
stored_value_size header = get_u32 (slice 12 16 header)

unfoldable pub stored_flag : Bytes → ℕ
stored_flag header = elim (drop 16 header) [ [] ↦ 0 | b ∷ _ ↦ b ]

abbrev pub stored_checksum : Bytes → ℕ
stored_checksum entry = get_u32 (slice 0 4 entry)

pub length-encode_entry :
    (timestamp : ℕ) (key value : Bytes) (flag : ℕ)
    → length (encode_entry timestamp key value flag) ≡ header_size + length key + length value
unfolding encode_entry entry_body
length-encode_entry timestamp key value flag = omega (arith, length-append key value)

-- An entry whose lengths fit 32 bits is read back field by field.
module _ (timestamp : ℕ) (key value : Bytes) (flag : ℕ) where
  abbrev entry : Bytes
  entry = encode_entry timestamp key value flag

  pub stored_checksum-encode_entry : stored_checksum entry ≡ checksum (drop 4 entry)
  unfolding encode_entry
  stored_checksum-encode_entry =
      get_u32-put_u32 _ (checksum-lt (entry_body timestamp key value flag))

  pub stored_key_size-encode_entry :
      length key < 2 ^ 32 → stored_key_size (take header_size entry) ≡ length key
  unfolding encode_entry entry_body get_u32
  stored_key_size-encode_entry h = omega arith

  pub stored_value_size-encode_entry :
      length value < 2 ^ 32 → stored_value_size (take header_size entry) ≡ length value
  unfolding encode_entry entry_body get_u32
  stored_value_size-encode_entry h = omega arith

  pub stored_flag-encode_entry : stored_flag (take header_size entry) ≡ flag
  unfolding encode_entry entry_body stored_flag
  stored_flag-encode_entry = refl

  pub key-encode_entry : slice header_size (header_size + length key) entry ≡ key
  unfolding encode_entry entry_body
  key-encode_entry =
      let size : header_size + length key - header_size ≡ length key = omega arith in
      rw size (take-append key value)

  pub value-encode_entry : drop (header_size + length key) entry ≡ value
  unfolding encode_entry entry_body
  value-encode_entry = rw (drop-add header_size (length key)) (drop-append key value)
