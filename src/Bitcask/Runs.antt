-- ===== src/Bitcask/Runs.antt =====
-- bitcask/main.go: any sequence of Put and Delete on a new store, while the system answers every
-- call, against a map from keys to values.
use design_pocs.Common.{
  ℕ, ◌^◌, ◌<◌, ◌≡◌, inl, inr, refl, Option, none, some, List, [], ◌∷◌, arith, All, lookup, Bytes,
  bytes_eq, length, if◌then◌else◌,
}
use design_pocs.Bitcask.Store.{
  FilePath, BitCask, new, all_well, reads_well, Reply, value, failure, key_not_found, get, put,
  delete,
}
use design_pocs.Bitcask.Invariant.{Inv, new-Inv, put-Inv, delete-Inv}
use design_pocs.Bitcask.Refinement.{put_atomic, delete_atomic, get_unknown}
use design_pocs.Bitcask.Progress.{IsReady, put_flag-succeeds}

-- One call, with the clock's reading.
pub data Call : Type 0 where
  put_call : ℕ → Bytes → Bytes → Call
  delete_call : ℕ → Bytes → Call

abbrev pub Fits : Call → Type 0
Fits (put_call now key v) = (length key < 2 ^ 32) × (length v < 2 ^ 32)
Fits (delete_call now key) = Unit {0}

unfoldable pub perform : Call → BitCask → BitCask
perform (put_call now key v) s = (put key v (all_well now) s).0
perform (delete_call now key) s = (delete key (all_well now) s).0

unfoldable pub perform_all : List Call → BitCask → BitCask
perform_all [] s = s
perform_all (c ∷ cs) s = perform_all cs (perform c s)

-- The specification: a map, updated at one key.
abbrev pub Contents : Type 0
Contents = Bytes → Option Bytes

abbrev pub specified : Call → Contents → Contents
specified (put_call now key v) m j = if bytes_eq key j then some v else m j
specified (delete_call now key) m j = if bytes_eq key j then none else m j

unfoldable pub specified_all : List Call → Contents → Contents
specified_all [] m = m
specified_all (c ∷ cs) m = specified_all cs (specified c m)

abbrev pub reply_of : Option Bytes → Reply
reply_of none = failure key_not_found
reply_of (some v) = value v

abbrev pub Agrees : BitCask → Contents → Type 0
Agrees s m = (j : Bytes) → get j reads_well s ≡ reply_of (m j)

record Tracks (s : BitCask) (m : Contents) : Type 0 where
  inv : Inv s
  ready : IsReady s
  agrees : Agrees s m

perform-Tracks :
    (c : Call) (s : BitCask) (m : Contents)
    → Fits c
    → Tracks s m
    → Tracks (perform c s) (specified c m)
unfolding perform
perform-Tracks (put_call now key v) s m (kf, vf) t =
    let (fine, opened) = put_flag-succeeds key v 0 now s t.ready in
    record {
      inv = put-Inv key v (all_well now) s kf vf t.inv;
      ready = inr opened;
      agrees = λ j. elim (put_atomic key v (all_well now) s kf vf t.inv) [
        | inl (_, error) ↦ absurd (error fine)
        | inr after ↦ ground (arith, after j, t.agrees j)
      ];
    }
perform-Tracks (delete_call now key) s m fits t =
    let (fine, opened) = put_flag-succeeds key [] 1 now s t.ready in
    record {
      inv = delete-Inv key (all_well now) s t.inv;
      ready = inr opened;
      agrees = λ j. elim (delete_atomic key (all_well now) s t.inv) [
        | inl (_, error) ↦ absurd (error fine)
        | inr after ↦ ground (arith, after j, t.agrees j)
      ];
    }

perform_all-Tracks :
    (cs : List Call) (s : BitCask) (m : Contents)
    → All Fits cs
    → Tracks s m
    → Tracks (perform_all cs s) (specified_all cs m)
unfolding perform_all specified_all
perform_all-Tracks [] s m fits t = t
perform_all-Tracks (c ∷ cs) s m (fit, fits) t =
    perform_all-Tracks cs (perform c s) (specified c m) fits (perform-Tracks c s m fit t)

new-Tracks : (disk : List (FilePath × Bytes)) → Tracks (new disk) (λ _. none)
new-Tracks disk = record {
  inv = new-Inv disk;
  ready = inl refl;
  agrees = λ j. get_unknown j reads_well (new disk) (unfold lookup in refl);
}

-- After any sequence of Put and Delete calls on a new store, with keys and values shorter than 4 GiB
-- and a system that answers every call, Get returns for every key what a map would hold.
pub store_refines_map :
    (cs : List Call) (disk : List (FilePath × Bytes))
    → All Fits cs
    → (j : Bytes)
    → get j reads_well (perform_all cs (new disk)) ≡ reply_of (specified_all cs (λ _. none) j)
store_refines_map cs disk fits =
    (perform_all-Tracks cs (new disk) (λ _. none) fits (new-Tracks disk)).agrees
