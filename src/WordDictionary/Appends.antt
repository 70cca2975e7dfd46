-- ===== src/WordDictionary/Appends.antt =====
-- word-dictionary/main.go: reads of a file that only grows at its end.
use design_pocs.Common.{
  ℕ, zero, suc, ◌+◌, ◌≤◌, ◌≡◌, inl, inr, refl, ap, ◌∙◌, Option-cases, some, [], ◌∷◌, ◌++◌, arith,
  Bytes, take_exact, read_at, read_at-zero, read_at-nil, length, length-append, take,
}

pub take_all : (xs : Bytes) → take (length xs) xs ≡ xs
take_all [] = refl
take_all (x ∷ xs) = ap (λ l. x ∷ l) (take_all xs)

pub take_exact-take : (n : ℕ) (g : Bytes) → n ≤ length g → take_exact n g ≡ some (take n g)
unfolding take_exact
take_exact-take zero g h = refl
take_exact-take (suc n) [] h = ground arith
take_exact-take (suc n) (x ∷ g) h = rw (take_exact-take n g (omega arith))

pub read_at_past : (f g : Bytes) (n : ℕ) → read_at (f ++ g) (length f) n ≡ take_exact n g
unfolding read_at
read_at_past [] g n = refl
read_at_past (x ∷ f) g n = read_at_past f g n

-- What stands behind the end of the file is read back.
pub read_at_end : (f g : Bytes) → read_at (f ++ g) (length f) (length g) ≡ some g
read_at_end f g =
    read_at_past f g (length g) ∙ take_exact-take (length g) g (omega arith) ∙ ap some (take_all g)

pub read_at_between :
    (f p g : Bytes) (n : ℕ)
    → n ≤ length g
    → read_at ((f ++ p) ++ g) (length f) n ≡ some (take n (p ++ g))
unfolding read_at
read_at_between [] p g n h = take_exact-take n (p ++ g) (omega (arith, length-append p g, h))
read_at_between (x ∷ f) p g n h = read_at_between f p g n h

take_exact-append_some :
    (n : ℕ) (f g x : Bytes) → take_exact n f ≡ some x → take_exact n (f ++ g) ≡ some x
unfolding take_exact
take_exact-append_some zero f g x e = e
take_exact-append_some (suc n) [] g x e = cc
take_exact-append_some (suc n) (y ∷ f) g x e = elim (Option-cases (take_exact n f)) [
  | inl short ↦ ground arith
  | inr (z, long) ↦ ground (arith, take_exact-append_some n f g z long)
]

-- What could be read stays as it is.
pub read_at-append :
    (f g : Bytes) (o n : ℕ) (x : Bytes) → read_at f o n ≡ some x → read_at (f ++ g) o n ≡ some x
unfolding read_at
read_at-append f g zero n x e = take_exact-append_some n f g x e
read_at-append [] g (suc o) n x e =
    let (none_read, nothing) = read_at-nil o n x e in
    rw (none_read, nothing) (read_at-zero g (suc o))
read_at-append (y ∷ f) g (suc o) n x e = read_at-append f g o n x e

pub read_at_within :
    (f : Bytes) (o n : ℕ) → o + n ≤ length f → (x : Bytes) × (read_at f o n ≡ some x)
unfolding read_at
read_at_within f zero n h = (take n f, take_exact-take n f (omega arith))
read_at_within [] (suc o) n h = ground arith
read_at_within (y ∷ f) (suc o) n h = read_at_within f o n (omega arith)

pub read_at_past_by : (f g : Bytes) (k n : ℕ) → read_at (f ++ g) (length f + k) n ≡ read_at g k n
unfolding read_at
read_at_past_by [] g k n = let plain : 0 + k ≡ k = omega arith in rw plain
read_at_past_by (x ∷ f) g k n =
    let next : suc (length f) + k ≡ suc (length f + k) = omega arith in
    rw next (read_at_past_by f g k n)
