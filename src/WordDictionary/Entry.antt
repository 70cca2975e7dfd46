-- ===== src/WordDictionary/Entry.antt =====
-- word-dictionary/main.go: the bytes of an entry, as Insert writes and GetMeaning reads them.
use design_pocs.Common.{
  ℕ, ◌+◌, ◌*◌, ◌/◌, ◌%◌, ◌^◌, ◌<◌, ◌≡◌, true, ◌∷◌, ◌++◌, arith, Bytes, length, length-append, take,
  drop, drop-append, leb, if◌then◌else◌,
}
use design_pocs.WordDictionary.Appends.{take_all}

-- A byte for the length of the word and three for that of the meaning, cut to their size, then both.
unfoldable pub encode_entry : Bytes → Bytes → Bytes
encode_entry word meaning =
    let m = length meaning in
    length word % 256 ∷ m / 65536 % 256 ∷ m / 256 % 256 ∷ m % 256 ∷ (word ++ meaning)

-- What GetMeaning returns: a text, or a panic on a slice out of range.
pub data Answer : Type 0 where
  text : Bytes → Answer
  panics : Answer

-- The end of GetMeaning, from the bytes that it read. The slice of the word ends where that of the
-- meaning begins, so one test covers both.
unfoldable pub meaning_of : Bytes → Answer
meaning_of (word_len ∷ high ∷ middle ∷ low ∷ rest) =
    let meaning_len = high * 65536 + middle * 256 + low in
    if leb (word_len + meaning_len) (length rest)
    then text (take meaning_len (drop word_len rest))
    else panics
meaning_of _ = panics

-- What an entry shows as its meaning.
abbrev pub shown : Bytes → Bytes → Bytes
shown word meaning = take (length meaning % 2 ^ 24) (drop (length word % 256) (word ++ meaning))

pub three_bytes : (m : ℕ) → m / 65536 % 256 * 65536 + m / 256 % 256 * 256 + m % 256 ≡ m % 2 ^ 24
three_bytes m = omega arith

pub meaning_of-encode_entry :
    (word meaning : Bytes) → meaning_of (encode_entry word meaning) ≡ text (shown word meaning)
unfolding meaning_of encode_entry
meaning_of-encode_entry word meaning =
    let len = three_bytes (length meaning) in
    let room : leb (length word % 256 + length meaning % 2 ^ 24) (length (word ++ meaning)) ≡ true =
      ground (arith, length-append word meaning) in
    rw len (rw room)

-- Where the lengths fit into their bytes, it is the meaning.
pub shown_fits :
    (word meaning : Bytes)
    → length word < 256
    → length meaning < 2 ^ 24
    → shown word meaning ≡ meaning
shown_fits word meaning h k =
    let word_len : length word % 256 ≡ length word = omega arith in
    let meaning_len : length meaning % 2 ^ 24 ≡ length meaning = omega arith in
    rw word_len (rw meaning_len (rw (drop-append word meaning) (take_all meaning)))
