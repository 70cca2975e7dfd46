-- ===== src/WordDictionary/Imports.antt =====
-- word-dictionary/main.go: what Import does to GetMeaning.
use design_pocs.Common.{
  ℕ, ◌+◌, ◌≤◌, ◌≡◌, ◌≢◌, inl, inr, refl, ap, sym, ◌∙◌, true, Bool-cases, none, some, List, [], ◌∷◌,
  ◌++◌, arith, All, Bytes, bytes_eq, bytes_eq_iff, bytes_key, lookup, lookup-insert_ne, read_at,
  length, length-append, if◌then◌else◌,
}
use mathlib.Core.List.{append_assoc, append-nil}
use mathlib.Core.Path.{subst}
use design_pocs.WordDictionary.Entry.{encode_entry, text, meaning_of-encode_entry, shown_fits}
use design_pocs.WordDictionary.Appends.{read_at_end}
use design_pocs.WordDictionary.Dictionary.{
  WordDictionary, new_word_dictionary, wrote, write_result, entry_written, get_meaning,
}
use design_pocs.WordDictionary.Inserts.{Inv, write_result-Inv, get_meaning_grown}
use design_pocs.WordDictionary.Meanings.{IsInStep, entry_at}
use design_pocs.WordDictionary.Refinement.{Fits, Meanings, text_of}
use design_pocs.WordDictionary.Import.{
  Temp, merge_files, ImportIo, imported, merge_with, finish, replace_file, import_change_log,
}
use design_pocs.WordDictionary.Loads.{encode_all, put_entry, put_all}
use design_pocs.WordDictionary.Merges.{
  Merged, log_left, file_left, same_word, file_first, log_first, merge_loop-Merges,
}

-- The dictionary on the temporary file.
abbrev of_temp : Temp → WordDictionary
of_temp t = record {
  word_meta_map = t.temp_meta_map;
  current_offset = length t.content;
  file = t.content;
}

-- The last meaning that the entries give to a word.
abbrev pub latest : List (Bytes × Bytes) → Meanings → Meanings
latest [] ms = ms
latest ((word, meaning) ∷ es) ms = latest es (λ j. if bytes_eq word j then some meaning else ms j)

record Reads (w : WordDictionary) (ms : Meanings) : Type 0 where
  inv : Inv w
  step : IsInStep w
  reads : (j : Bytes) → get_meaning j w ≡ text_of (ms j)

entry_written-Inv :
    (word bytes : Bytes) (w : WordDictionary) → Inv w → Inv (entry_written word bytes w)
unfolding write_result
entry_written-Inv word bytes w inv = write_result-Inv wrote word bytes w inv

entry_written-Reads :
    (word meaning : Bytes) (w : WordDictionary) (ms : Meanings)
    → Fits (word, meaning)
    → Reads w ms
    → Reads
        (entry_written word (encode_entry word meaning) w)
        (λ j. if bytes_eq word j then some meaning else ms j)
entry_written-Reads word meaning w ms (fits, fits') r =
    let bytes = encode_entry word meaning in
    let w' = entry_written word bytes w in
    let here : get_meaning word w' ≡ text meaning =
      entry_at word bytes bytes w
        (ap (λ o. read_at (w.file ++ bytes) o (length bytes)) r.step ∙ read_at_end w.file bytes)
      ∙ meaning_of-encode_entry word meaning
      ∙ ap text (shown_fits word meaning fits fits') in
    record {
      inv = entry_written-Inv word bytes w r.inv;
      step = ap (λ o. o + length bytes) r.step ∙ sym (length-append w.file bytes);
      reads = λ j. elim (Bool-cases (bytes_eq word j)) [
        | inl same ↦
            rw same (ap (λ k. get_meaning k w') (sym ((bytes_eq_iff word j).0 same)) ∙ here)
        | inr other ↦
            let differs : word ≢ j = ground (arith, bytes_eq_iff word j) in
            rw other (
              get_meaning_grown j bytes w w' r.inv refl (
                lookup-insert_ne word j
                  (record { offset = w.current_offset; entry_size = length bytes }) w.word_meta_map
                  differs)
              ∙ r.reads j)
      ];
    }

of_temp-put_entry :
    (e : Bytes × Bytes) (t : Temp)
    → entry_written e.0 (encode_entry e.0 e.1) (of_temp t) ≡ of_temp (put_entry e t)
of_temp-put_entry (word, meaning) t =
    let bytes = encode_entry word meaning in
    ap (λ o. record (of_temp (put_entry (word, meaning) t)) { current_offset = o })
      (sym (length-append t.content bytes))

put_all-Reads :
    (es : List (Bytes × Bytes)) (t : Temp) (ms : Meanings)
    → All Fits es
    → Reads (of_temp t) ms
    → Reads (of_temp (put_all es t)) (latest es ms)
put_all-Reads [] t ms fits r = r
put_all-Reads ((word, meaning) ∷ es) t ms (fit, fits) r =
    put_all-Reads es (put_entry (word, meaning) t) _ fits (
      subst (λ w. Reads w (λ j. if bytes_eq word j then some meaning else ms j))
        (of_temp-put_entry (word, meaning) t)
        (entry_written-Reads word meaning (of_temp t) ms fit r))

content-put_all :
    (es : List (Bytes × Bytes)) (t : Temp) → (put_all es t).content ≡ t.content ++ encode_all es
content-put_all [] t = sym (append-nil t.content)
content-put_all ((word, meaning) ∷ es) t =
    content-put_all es (put_entry (word, meaning) t)
    ∙ append_assoc t.content (encode_entry word meaning) (encode_all es)

Merged-Fits :
    {cs ls out : List (Bytes × Bytes)} → Merged cs ls out → All Fits cs → All Fits ls → All Fits out
Merged-Fits log_left fc fl = fl
Merged-Fits file_left fc fl = fc
Merged-Fits (same_word e m) (f, fc) (g, fl) = (g, Merged-Fits m fc fl)
Merged-Fits (file_first e h m) (f, fc) fl = (f, Merged-Fits m fc fl)
Merged-Fits (log_first e h m) fc (g, fl) = (g, Merged-Fits m fc fl)

entries_long : (es : List (Bytes × Bytes)) → length es ≤ length (encode_all es)
unfolding encode_entry
entries_long [] = omega arith
entries_long ((word, meaning) ∷ es) =
    let rest = entries_long es in
    omega (arith, length-append (encode_entry word meaning) (encode_all es))

abbrev empty_temp : ℕ → Temp
empty_temp n = record { content = []; temp_meta_map = []; writes = n }

merge_files-Merged :
    (cs ls : List (Bytes × Bytes)) (n : ℕ)
    → All Fits cs
    → All Fits ls
    → length cs + length ls ≤ n
    → (out : List (Bytes × Bytes)) × Merged cs ls out
      × (merge_files (encode_all cs) (length (encode_all cs)) (encode_all ls) n
          ≡ some (put_all out (empty_temp n)))
unfolding merge_files
merge_files-Merged cs ls n fc fl room =
    let fuel = length (encode_all cs) + length (encode_all ls) in
    let long = entries_long cs in
    let long' = entries_long ls in
    merge_loop-Merges fuel fuel (encode_all cs) (encode_all ls) [] [] (empty_temp n) cs ls refl refl
      fc fl room (omega arith) (omega arith)

-- The system answers every call, and the change log holds these entries.
abbrev pub import_well : List (Bytes × Bytes) → ℕ → ImportIo
import_well ls n = record {
  change_log = some (encode_all ls);
  opens_temp = true;
  temp_writes = n;
  renames = true;
  reopens = true;
}

new-Reads : Reads (new_word_dictionary []) (λ _. none)
unfolding lookup get_meaning
new-Reads = record { inv = (omega arith, λ j meta e. cc); step = refl; reads = λ j. refl }

imported_as :
    (cs ls : List (Bytes × Bytes)) (n : ℕ) (w : WordDictionary) (t : Temp)
    → w.file ≡ encode_all cs
    → IsInStep w
    → merge_files (encode_all cs) (length (encode_all cs)) (encode_all ls) n ≡ some t
    → import_change_log (import_well ls n) w ≡ imported (of_temp t)
unfolding import_change_log merge_with finish replace_file
imported_as cs ls n w t file step e = ap (finish (import_well ls n) w) (
    ap (λ f. merge_files f w.current_offset (encode_all ls) n) file
    ∙ ap (λ o. merge_files (encode_all cs) o (encode_all ls) n) (step ∙ ap length file)
    ∙ e)

-- When the file and the change log hold entries whose lengths fit, and the system answers every call and
-- takes a write for each entry, Import puts the merge of the two lists of entries, in which the change log
-- wins, into the file, and GetMeaning returns the last meaning that the merge gives to a word, and the empty
-- text for a word that it does not have.
pub import_merges :
    (cs ls : List (Bytes × Bytes)) (n : ℕ) (w : WordDictionary)
    → All Fits cs
    → All Fits ls
    → length cs + length ls ≤ n
    → w.file ≡ encode_all cs
    → IsInStep w
    → (out : List (Bytes × Bytes)) × (w' : WordDictionary) × Merged cs ls out
      × (import_change_log (import_well ls n) w ≡ imported w')
      × (w'.file ≡ encode_all out)
      × IsInStep w'
      × ((j : Bytes) → get_meaning j w' ≡ text_of (latest out (λ _. none) j))
import_merges cs ls n w fc fl room file step =
    let (out, merged, e) = merge_files-Merged cs ls n fc fl room in
    let r = put_all-Reads out (empty_temp n) (λ _. none) (Merged-Fits merged fc fl) new-Reads in
    (
      out,
      of_temp (put_all out (empty_temp n)),
      merged,
      imported_as cs ls n w (put_all out (empty_temp n)) file step e,
      content-put_all out (empty_temp n),
      r.step,
      r.reads,
    )
