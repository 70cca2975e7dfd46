-- ===== src/WordDictionary/Loads.antt =====
-- word-dictionary/main.go, Import: reading entries back from a file that holds them.
use design_pocs.Common.{
  ℕ, zero, suc, ◌+◌, ◌-◌, ◌/◌, ◌%◌, ◌≤◌, ◌≡◌, ap, sym, ◌∙◌, true, false, some, List, [], ◌∷◌, ◌++◌,
  arith, All, Bytes, read_at, take_exact, take_exact-append, length, length-append, take-append,
  ltb, ◌==◌,
}
use mathlib.Core.List.{append_assoc}
use mathlib.Core.Path.{subst}
use design_pocs.WordDictionary.Entry.{encode_entry, three_bytes}
use design_pocs.WordDictionary.Appends.{read_at_past, read_at_past_by}
use design_pocs.WordDictionary.Refinement.{Fits}
use design_pocs.WordDictionary.Import.{
  Loaded, word_len, meaning_len, load, load_whole, Temp, temp_with, append_temp, copy_rest,
}

abbrev pub entry : Bytes × Bytes → Loaded
entry (word, meaning) = record { entry_bytes = encode_entry word meaning; entry_word = word }

abbrev pub encode_all : List (Bytes × Bytes) → Bytes
encode_all [] = []
encode_all ((word, meaning) ∷ es) = encode_entry word meaning ++ encode_all es

abbrev lengths : Bytes → Bytes → Bytes
lengths word meaning =
    let m = length meaning in length word % 256 ∷ m / 65536 % 256 ∷ m / 256 % 256 ∷ m % 256 ∷ []

read_lengths :
    (pre word meaning rest : Bytes)
    → read_at (pre ++ (encode_entry word meaning ++ rest)) (length pre) 4
      ≡ some (lengths word meaning)
unfolding encode_entry take_exact
read_lengths pre word meaning rest = read_at_past pre (encode_entry word meaning ++ rest) 4

lengths_fit :
    (word meaning : Bytes)
    → Fits (word, meaning)
    → (word_len (lengths word meaning) ≡ length word)
      × (meaning_len (lengths word meaning) ≡ length meaning)
lengths_fit word meaning (h, k) = (omega arith, omega (arith, three_bytes (length meaning)))

read_payload :
    (pre word meaning rest : Bytes) (n : ℕ)
    → n ≡ length (word ++ meaning)
    → read_at (pre ++ (encode_entry word meaning ++ rest)) (length pre + 4) n
      ≡ some (word ++ meaning)
unfolding encode_entry read_at
read_payload pre word meaning rest n e =
    read_at_past_by pre (encode_entry word meaning ++ rest) 4 n
    ∙ ap (λ k. take_exact k ((word ++ meaning) ++ rest)) e
    ∙ take_exact-append (word ++ meaning) rest

pub load-entry :
    (pre word meaning rest : Bytes)
    → Fits (word, meaning)
    → load (pre ++ (encode_entry word meaning ++ rest)) (length pre) ≡ some (entry (word, meaning))
unfolding load encode_entry
load-entry pre word meaning rest fits =
    let (w, m) = lengths_fit word meaning fits in
    let n : word_len (lengths word meaning) + meaning_len (lengths word meaning)
        ≡ length (word ++ meaning) =
      omega (arith, w, m, length-append word meaning) in
    rw (read_lengths pre word meaning rest) (
      rw (read_payload pre word meaning rest _ n) (
        ap (λ x. some (record { entry_bytes = encode_entry word meaning; entry_word = x }))
          (rw w (take-append word meaning))))

load_whole-entry :
    (pre word meaning rest : Bytes)
    → Fits (word, meaning)
    → load_whole (pre ++ (encode_entry word meaning ++ rest)) (length pre)
      ≡ some (entry (word, meaning))
unfolding load_whole encode_entry
load_whole-entry pre word meaning rest fits =
    let (w, m) = lengths_fit word meaning fits in
    let bytes = encode_entry word meaning in
    let n : 4 + word_len (lengths word meaning) + meaning_len (lengths word meaning)
        ≡ length bytes =
      omega (arith, w, m, length-append word meaning) in
    let whole : read_at (pre ++ (bytes ++ rest)) (length pre)
          (4 + word_len (lengths word meaning) + meaning_len (lengths word meaning))
        ≡ some bytes =
      read_at_past pre (bytes ++ rest) _
      ∙ ap (λ k. take_exact k (bytes ++ rest)) n
      ∙ take_exact-append bytes rest in
    rw (read_lengths pre word meaning rest) (
      rw whole (
        ap (λ x. some (record { entry_bytes = bytes; entry_word = x }))
          (rw w (take-append word meaning))))

-- The temporary file after these entries.
abbrev pub put_entry : Bytes × Bytes → Temp → Temp
put_entry e t = temp_with (entry e) (record t { writes = t.writes - 1 })

abbrev pub put_all : List (Bytes × Bytes) → Temp → Temp
put_all [] t = t
put_all (e ∷ es) t = put_all es (put_entry e t)

pub append_temp-entry :
    (e : Bytes × Bytes) (t : Temp) → 1 ≤ t.writes → append_temp (entry e) t ≡ some (put_entry e t)
unfolding append_temp
append_temp-entry e t h = let some_left : (t.writes == 0) ≡ false = ground arith in rw some_left

pub copy_rest_done :
    (fuel : ℕ) (file : Bytes) (end offset : ℕ) (t : Temp)
    → ltb offset end ≡ false
    → copy_rest fuel file end offset t ≡ some t
unfolding copy_rest
copy_rest_done zero file end offset t h = rw h
copy_rest_done (suc fuel) file end offset t h = rw h

copy_rest_step :
    (fuel : ℕ) (file : Bytes) (end offset : ℕ) (t : Temp) (e : Bytes × Bytes)
    → ltb offset end ≡ true
    → load_whole file offset ≡ some (entry e)
    → 1 ≤ t.writes
    → copy_rest (suc fuel) file end offset t
      ≡ copy_rest fuel file end (offset + length (entry e).entry_bytes) (put_entry e t)
unfolding copy_rest
copy_rest_step fuel file end offset t e more loaded left =
    rw more (rw loaded (rw (append_temp-entry e t left)))

pub entry_nonempty : (word meaning : Bytes) → 4 ≤ length (encode_entry word meaning)
unfolding encode_entry
entry_nonempty word meaning = omega arith

-- Copying a file from the end of some entries on appends the entries behind it.
pub copy_rest-put_all :
    (fuel : ℕ) (pre : Bytes) (es : List (Bytes × Bytes)) (t : Temp)
    → All Fits es
    → length es ≤ t.writes
    → length es ≤ fuel
    → copy_rest fuel (pre ++ encode_all es) (length (pre ++ encode_all es)) (length pre) t
      ≡ some (put_all es t)
copy_rest-put_all fuel pre [] t fits left enough =
    copy_rest_done fuel _ _ _ t (ground (arith, length-append pre []))
copy_rest-put_all zero pre (e ∷ es) t fits left enough = absurd (omega arith)
copy_rest-put_all (suc fuel) pre ((word, meaning) ∷ es) t (fit, fits) left enough =
    let bytes = encode_entry word meaning in
    let file = pre ++ (bytes ++ encode_all es) in
    let long = entry_nonempty word meaning in
    let more : ltb (length pre) (length file) ≡ true =
      ground
        (arith, length-append pre (bytes ++ encode_all es), length-append bytes (encode_all es)) in
    let regroup : (pre ++ bytes) ++ encode_all es ≡ file = append_assoc pre bytes (encode_all es) in
    let rest =
      copy_rest-put_all fuel (pre ++ bytes) es (put_entry (word, meaning) t) fits (omega arith)
        (omega arith) in
    copy_rest_step fuel file (length file) (length pre) t (word, meaning) more
      (load_whole-entry pre word meaning (encode_all es) fit) (omega arith)
    ∙ ap (λ o. copy_rest fuel file (length file) o (put_entry (word, meaning) t))
        (sym (length-append pre bytes))
    ∙ subst
        (λ f.
          copy_rest fuel f (length f) (length (pre ++ bytes)) (put_entry (word, meaning) t)
          ≡ some (put_all es (put_entry (word, meaning) t)))
        regroup rest
