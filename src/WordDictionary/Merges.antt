-- ===== src/WordDictionary/Merges.antt =====
-- word-dictionary/main.go, Import: what the new file holds.
use design_pocs.Common.{
  ℕ, zero, suc, ◌+◌, ◌≤◌, ◌≡◌, inl, inr, refl, ap, sym, ◌∙◌, Bool, true, false, ◌&&◌, Bool-cases,
  Option, some, List, [], ◌∷◌, ◌++◌, arith, All, Bytes, bytes_eq, bytes_key, length, length-append,
  ltb,
}
use mathlib.Core.List.{append_assoc}
use design_pocs.Common.Sort.{bytes_lt}
use design_pocs.WordDictionary.Entry.{encode_entry}
use design_pocs.WordDictionary.Refinement.{Fits}
use design_pocs.WordDictionary.Import.{
  and_then, load, Temp, copy_rest, Merging, merge_entry, merge_loop,
}
use design_pocs.WordDictionary.Loads.{
  entry, encode_all, load-entry, put_entry, put_all, append_temp-entry, entry_nonempty,
  copy_rest-put_all,
}

-- The merge of two lists of entries: of two first entries with the same word the one of the change log
-- is taken and the other dropped, else the one whose word comes first; what is left of one list follows.
pub data Merged : List (Bytes × Bytes) → List (Bytes × Bytes) → List (Bytes × Bytes) → Type 0 where
  log_left : {ls : List (Bytes × Bytes)} → Merged [] ls ls
  file_left : {cs : List (Bytes × Bytes)} → Merged cs [] cs
  same_word :
      {c l : Bytes × Bytes} {cs ls out : List (Bytes × Bytes)}
      → bytes_eq c.0 l.0 ≡ true
      → Merged cs ls out
      → Merged (c ∷ cs) (l ∷ ls) (l ∷ out)
  file_first :
      {c l : Bytes × Bytes} {cs ls out : List (Bytes × Bytes)}
      → bytes_eq c.0 l.0 ≡ false
      → bytes_lt c.0 l.0 ≡ true
      → Merged cs (l ∷ ls) out
      → Merged (c ∷ cs) (l ∷ ls) (c ∷ out)
  log_first :
      {c l : Bytes × Bytes} {cs ls out : List (Bytes × Bytes)}
      → bytes_eq c.0 l.0 ≡ false
      → bytes_lt c.0 l.0 ≡ false
      → Merged (c ∷ cs) ls out
      → Merged (c ∷ cs) (l ∷ ls) (l ∷ out)

abbrev at : Bytes → Bytes → Temp → Merging
at before before' t = record {
  current_file_offset = length before;
  change_log_file_offset = length before';
  temp = t;
}

abbrev bytes_of : Bytes × Bytes → Bytes
bytes_of e = (entry e).entry_bytes

merge_loop_done :
    (fuel : ℕ) (file : Bytes) (end : ℕ) (log : Bytes) (s : Merging)
    → (ltb s.current_file_offset end && ltb s.change_log_file_offset (length log)) ≡ false
    → merge_loop fuel file end log s ≡ some s
unfolding merge_loop
merge_loop_done zero file end log s h = rw h
merge_loop_done (suc fuel) file end log s h = rw h

merge_loop_step :
    (fuel : ℕ) (file : Bytes) (end : ℕ) (log : Bytes) (s s' : Merging) (c l : Bytes × Bytes)
    → (ltb s.current_file_offset end && ltb s.change_log_file_offset (length log)) ≡ true
    → load file s.current_file_offset ≡ some (entry c)
    → load log s.change_log_file_offset ≡ some (entry l)
    → merge_entry (entry c) (entry l) s ≡ some s'
    → merge_loop (suc fuel) file end log s ≡ merge_loop fuel file end log s'
unfolding merge_loop
merge_loop_step fuel file end log s s' c l more cur ch chosen = rw more (rw cur (rw ch (rw chosen)))

same_step :
    (c l : Bytes × Bytes) (p q : Bytes) (t : Temp)
    → bytes_eq c.0 l.0 ≡ true
    → 1 ≤ t.writes
    → merge_entry (entry c) (entry l) (at p q t)
      ≡ some (at (p ++ bytes_of c) (q ++ bytes_of l) (put_entry l t))
unfolding merge_entry
same_step (w, m) (v, k) p q t same left = rw same (
    rw (append_temp-entry (v, k) t left)
      (rw (length-append p (encode_entry w m)) (rw (length-append q (encode_entry v k)))))

file_step :
    (c l : Bytes × Bytes) (p q : Bytes) (t : Temp)
    → bytes_eq c.0 l.0 ≡ false
    → bytes_lt c.0 l.0 ≡ true
    → 1 ≤ t.writes
    → merge_entry (entry c) (entry l) (at p q t) ≡ some (at (p ++ bytes_of c) q (put_entry c t))
unfolding merge_entry
file_step (w, m) (v, k) p q t other less left =
    rw other
      (rw less (rw (append_temp-entry (w, m) t left) (rw (length-append p (encode_entry w m)))))

log_step :
    (c l : Bytes × Bytes) (p q : Bytes) (t : Temp)
    → bytes_eq c.0 l.0 ≡ false
    → bytes_lt c.0 l.0 ≡ false
    → 1 ≤ t.writes
    → merge_entry (entry c) (entry l) (at p q t) ≡ some (at p (q ++ bytes_of l) (put_entry l t))
unfolding merge_entry
log_step (w, m) (v, k) p q t other more left =
    rw other
      (rw more (rw (append_temp-entry (v, k) t left) (rw (length-append q (encode_entry v k)))))

-- The two loops behind the one over both files.
abbrev after : ℕ → Bytes → Bytes → Merging → Option Temp
after fuel file log s =
    and_then (copy_rest fuel file (length file) s.current_file_offset s.temp)
      (λ t. copy_rest fuel log (length log) s.change_log_file_offset t)

-- What the three loops do from a place in both files on.
abbrev Merges :
    ℕ → ℕ → Bytes → Bytes → Merging → List (Bytes × Bytes) → List (Bytes × Bytes) → Type 0
Merges fuel rest file log s cs ls =
    (out : List (Bytes × Bytes)) × Merged cs ls out
    × (and_then (merge_loop fuel file (length file) log s) (after rest file log)
        ≡ some (put_all out s.temp))

copy_from :
    (rest : ℕ) (f p : Bytes) (es : List (Bytes × Bytes)) (t : Temp)
    → f ≡ p ++ encode_all es
    → All Fits es
    → length es ≤ t.writes
    → length es ≤ rest
    → copy_rest rest f (length f) (length p) t ≡ some (put_all es t)
copy_from rest f p es t e fits left enough =
    ap (λ x. copy_rest rest x (length x) (length p) t) e
    ∙ copy_rest-put_all rest p es t fits left enough

merges_rest :
    (fuel rest : ℕ) (file log p q : Bytes) (t : Temp) (cs ls : List (Bytes × Bytes))
    → (ltb (length p) (length file) && ltb (length q) (length log)) ≡ false
    → copy_rest rest file (length file) (length p) t ≡ some (put_all cs t)
    → copy_rest rest log (length log) (length q) (put_all cs t) ≡ some (put_all ls (put_all cs t))
    → and_then (merge_loop fuel file (length file) log (at p q t)) (after rest file log)
      ≡ some (put_all ls (put_all cs t))
merges_rest fuel rest file log p q t cs ls done first second =
    rw (merge_loop_done fuel file (length file) log (at p q t) done) (rw first second)

not_at_end :
    (f p : Bytes) (e : Bytes × Bytes) (es : List (Bytes × Bytes))
    → f ≡ p ++ encode_all (e ∷ es)
    → ltb (length p) (length f) ≡ true
not_at_end f p (w, m) es h =
    let long = entry_nonempty w m in
    let len : length f ≡ length p + (length (encode_entry w m) + length (encode_all es)) =
      ap length h
      ∙ length-append p (encode_entry w m ++ encode_all es)
      ∙ ap (λ n. length p + n) (length-append (encode_entry w m) (encode_all es)) in
    ground arith

at_end : (f p : Bytes) → f ≡ p ++ [] → ltb (length p) (length f) ≡ false
at_end f p h = let len = ap length h ∙ length-append p [] in ground arith

and_false : (b : Bool) → (b && false) ≡ false
and_false true = refl
and_false false = refl

load_from :
    (f p : Bytes) (e : Bytes × Bytes) (es : List (Bytes × Bytes))
    → f ≡ p ++ encode_all (e ∷ es)
    → Fits e
    → load f (length p) ≡ some (entry e)
load_from f p (w, m) es h fit = ap (λ x. load x (length p)) h ∙ load-entry p w m (encode_all es) fit

past_entry :
    (f p : Bytes) (e : Bytes × Bytes) (es : List (Bytes × Bytes))
    → f ≡ p ++ encode_all (e ∷ es)
    → f ≡ (p ++ bytes_of e) ++ encode_all es
past_entry f p (w, m) es h = h ∙ sym (append_assoc p (encode_entry w m) (encode_all es))

pub merge_loop-Merges :
    (fuel rest : ℕ) (file log p q : Bytes) (t : Temp) (cs ls : List (Bytes × Bytes))
    → file ≡ p ++ encode_all cs
    → log ≡ q ++ encode_all ls
    → All Fits cs
    → All Fits ls
    → length cs + length ls ≤ t.writes
    → length cs + length ls ≤ fuel
    → length cs + length ls ≤ rest
    → Merges fuel rest file log (at p q t) cs ls
merge_loop-Merges fuel rest file log p q t [] ls hf hl fc fl left enough room = (
  ls,
  log_left,
  merges_rest fuel rest file log p q t [] ls (rw (at_end file p hf))
      (copy_from rest file p [] t hf tt (omega arith) (omega arith))
      (copy_from rest log q ls t hl fl (omega arith) (omega arith)),
)
merge_loop-Merges fuel rest file log p q t (c ∷ cs) [] hf hl fc fl left enough room = (
  c ∷ cs,
  file_left,
  merges_rest fuel rest file log p q t (c ∷ cs) []
      (rw (at_end log q hl) (and_false (ltb (length p) (length file))))
      (copy_from rest file p (c ∷ cs) t hf fc (omega arith) (omega arith))
      (copy_from rest log q [] (put_all (c ∷ cs) t) hl tt (omega arith) (omega arith)),
)
merge_loop-Merges zero rest file log p q t (c ∷ cs) (l ∷ ls) hf hl fc fl left enough room =
    absurd (omega arith)
merge_loop-Merges (suc fuel) rest file log p q t (c ∷ cs) (l ∷ ls) hf hl (fit, fc) (fit', fl) left
      enough room =
    elim (Bool-cases (bytes_eq c.0 l.0)) [
      | inl same ↦
          let (out, merged, e) =
            merge_loop-Merges fuel rest file log (p ++ bytes_of c) (q ++ bytes_of l) (put_entry l t)
              cs ls (past_entry file p c cs hf) (past_entry log q l ls hl) fc fl (omega arith)
              (omega arith) (omega arith) in
          (l ∷ out, same_word same merged, go _ (same_step c l p q t same (omega arith)) e)
      | inr other ↦ elim (Bool-cases (bytes_lt c.0 l.0)) [
        | inl less ↦
            let (out, merged, e) =
              merge_loop-Merges fuel rest file log (p ++ bytes_of c) q (put_entry c t) cs (l ∷ ls)
                (past_entry file p c cs hf) hl fc (fit', fl) (omega arith) (omega arith)
                (omega arith) in
            (
              c ∷ out,
              file_first other less merged,
              go _ (file_step c l p q t other less (omega arith)) e,
            )
        | inr more ↦
            let (out, merged, e) =
              merge_loop-Merges fuel rest file log p (q ++ bytes_of l) (put_entry l t) (c ∷ cs) ls
                hf (past_entry log q l ls hl) (fit, fc) fl (omega arith) (omega arith)
                (omega arith) in
            (
              l ∷ out,
              log_first other more merged,
              go _ (log_step c l p q t other more (omega arith)) e,
            )
      ]
    ]
  where
    go :
        {r : Option Temp} (s' : Merging)
        → merge_entry (entry c) (entry l) (at p q t) ≡ some s'
        → and_then (merge_loop fuel file (length file) log s') (after rest file log) ≡ r
        → and_then (merge_loop (suc fuel) file (length file) log (at p q t)) (after rest file log)
          ≡ r
    go s' chosen e =
        ap (λ r. and_then r (after rest file log))
          (merge_loop_step fuel file (length file) log (at p q t) s' c l
            (rw (not_at_end file p c cs hf) (not_at_end log q l ls hl))
            (load_from file p c cs hf fit) (load_from log q l ls hl fit') chosen)
        ∙ e
