-- ===== src/Common/Files.antt =====
-- Byte strings, and files as byte strings: os.File.ReadAt and os.File.WriteAt.
use Prim.Native.Nat.{ℕ, zero, suc, ◌+◌, ◌≤◌}
use Prim.Native.Char.{code}
use Prim.Native.String.{String}
use mathlib.Core.Path.{◌≡◌, refl}
use mathlib.Core.Logic.{◌↔◌, inl, inr}
use mathlib.Core.Bool.{Bool, true, false, ◌&&◌}
use mathlib.Core.Option.{Option, none, some}
use mathlib.Core.List.{List, [], ◌∷◌, ◌++◌}
use native.Mathlib.Omega.{arith}
use design_pocs.Common.Tests.{◌==◌, ==_iff, Option-cases, if◌then◌else◌}
use design_pocs.Common.Lists.{length, take, drop}
use design_pocs.Common.Map.{Eq}

abbrev pub Bytes : Type 0
Bytes = List ℕ

-- The bytes of an ASCII literal.
abbrev pub codes : String → Bytes
codes String.[] = []
codes (String.◌∷◌ c s) = code c ∷ codes s

unfoldable pub bytes_eq : Bytes → Bytes → Bool
bytes_eq [] [] = true
bytes_eq (x ∷ xs) (y ∷ ys) = (x == y) && bytes_eq xs ys
bytes_eq _ _ = false

pub bytes_eq_iff : (a b : Bytes) → (bytes_eq a b ≡ true) ↔ (a ≡ b)
unfolding bytes_eq
bytes_eq_iff [] [] = ground arith
bytes_eq_iff [] (y ∷ ys) = ground arith
bytes_eq_iff (x ∷ xs) [] = ground arith
bytes_eq_iff (x ∷ xs) (y ∷ ys) = ground (arith, ==_iff x y, bytes_eq_iff xs ys)

instance abbrev pub bytes_key : Eq Bytes
bytes_key = record { beq = bytes_eq; beq_iff = bytes_eq_iff }

-- The first n bytes, if there are so many.
unfoldable pub take_exact : ℕ → Bytes → Option Bytes
take_exact zero f = some []
take_exact (suc n) [] = none
take_exact (suc n) (x ∷ f) = elim (take_exact n f) [ none ↦ none | some xs ↦ some (x ∷ xs) ]

-- ReadAt fills the whole buffer or returns an error.
unfoldable pub read_at : Bytes → ℕ → ℕ → Option Bytes
unfolding take_exact
read_at f zero n = take_exact n f
read_at [] (suc o) n = if n == 0 then some [] else none
read_at (x ∷ f) (suc o) n = read_at f o n

-- WriteAt overwrites from the offset on; a gap behind the end of the file is filled with zeros.
unfoldable pub write_at : Bytes → ℕ → Bytes → Bytes
write_at f zero b = b ++ drop (length b) f
write_at [] (suc o) b = 0 ∷ write_at [] o b
write_at (x ∷ f) (suc o) b = x ∷ write_at f o b

pub take_exact-append : (b r : Bytes) → take_exact (length b) (b ++ r) ≡ some b
unfolding take_exact
take_exact-append [] r = refl
take_exact-append (x ∷ b) r = rw (take_exact-append b r)

pub read_at-write_at_self :
    (f : Bytes) (o : ℕ) (b : Bytes) → read_at (write_at f o b) o (length b) ≡ some b
unfolding read_at write_at
read_at-write_at_self f zero b = take_exact-append b (drop (length b) f)
read_at-write_at_self [] (suc o) b = read_at-write_at_self [] o b
read_at-write_at_self (x ∷ f) (suc o) b = read_at-write_at_self f o b

take_exact-write_at :
    (f : Bytes) (w n : ℕ) (b x : Bytes)
    → n ≤ w
    → take_exact n f ≡ some x
    → take_exact n (write_at f w b) ≡ some x
unfolding take_exact write_at
take_exact-write_at f w zero b x h e = e
take_exact-write_at f zero (suc n) b x h e = absurd (omega arith)
take_exact-write_at [] (suc w) (suc n) b x h e = cc
take_exact-write_at (y ∷ f) (suc w) (suc n) b x h e = elim (Option-cases (take_exact n f)) [
  | inl short ↦ ground arith
  | inr (xs, long) ↦ ground (arith, take_exact-write_at f w n b xs (omega arith) long)
]

pub read_at-zero : (f : Bytes) (o : ℕ) → read_at f o 0 ≡ some []
unfolding read_at
read_at-zero f zero = refl
read_at-zero [] (suc o) = refl
read_at-zero (y ∷ f) (suc o) = read_at-zero f o

pub read_at-nil : (o n : ℕ) (x : Bytes) → read_at [] (suc o) n ≡ some x → (n ≡ 0) × (x ≡ [])
unfolding read_at
read_at-nil o n x e = ground arith

-- A write leaves the bytes in front of its offset alone.
pub read_at-write_at_before :
    (f : Bytes) (o n w : ℕ) (b x : Bytes)
    → o + n ≤ w
    → read_at f o n ≡ some x
    → read_at (write_at f w b) o n ≡ some x
unfolding read_at write_at
read_at-write_at_before f zero n w b x h e = take_exact-write_at f w n b x (omega arith) e
read_at-write_at_before [] (suc o) n zero b x h e = absurd (omega arith)
read_at-write_at_before (y ∷ f) (suc o) n zero b x h e = absurd (omega arith)
read_at-write_at_before [] (suc o) n (suc w) b x h e =
    let (none_read, nothing) = read_at-nil o n x e in
    rw (none_read, nothing) (read_at-zero (write_at [] w b) o)
read_at-write_at_before (y ∷ f) (suc o) n (suc w) b x h e =
    read_at-write_at_before f o n w b x (omega arith) e

-- What was read has the length asked for, and a shorter read at the same place is its front.
length-take_exact : (n : ℕ) (f x : Bytes) → take_exact n f ≡ some x → length x ≡ n
unfolding take_exact
length-take_exact zero f x e = ground arith
length-take_exact (suc n) [] x e = cc
length-take_exact (suc n) (y ∷ f) x e = elim (Option-cases (take_exact n f)) [
  | inl short ↦ ground arith
  | inr (xs, long) ↦ ground (arith, length-take_exact n f xs long)
]

pub length-read_at : (f : Bytes) (o n : ℕ) (x : Bytes) → read_at f o n ≡ some x → length x ≡ n
unfolding read_at
length-read_at f zero n x e = length-take_exact n f x e
length-read_at [] (suc o) n x e = ground (arith, read_at-nil o n x e)
length-read_at (y ∷ f) (suc o) n x e = length-read_at f o n x e

take_exact-take :
    (n m : ℕ) (f x : Bytes) → n ≤ m → take_exact m f ≡ some x → take_exact n f ≡ some (take n x)
unfolding take_exact
take_exact-take zero m f x h e = refl
take_exact-take (suc n) zero f x h e = absurd (omega arith)
take_exact-take (suc n) (suc m) [] x h e = cc
take_exact-take (suc n) (suc m) (y ∷ f) x h e = elim (Option-cases (take_exact m f)) [
  | inl short ↦ ground arith
  | inr (xs, long) ↦ ground (arith, take_exact-take n m f xs (omega arith) long)
]

pub read_at-take :
    (f : Bytes) (o n m : ℕ) (x : Bytes)
    → n ≤ m
    → read_at f o m ≡ some x
    → read_at f o n ≡ some (take n x)
unfolding read_at
read_at-take f zero n m x h e = take_exact-take n m f x h e
read_at-take [] (suc o) n m x h e =
    let (m_zero, _) = read_at-nil o m x e in let n_zero : n ≡ 0 = omega arith in rw n_zero
read_at-take (y ∷ f) (suc o) n m x h e = read_at-take f o n m x h e
