-- ===== src/Common/Map.antt =====
-- Go maps as association lists over a type with a Boolean equality. Only the order-free
-- operations are here; a loop over a map takes the list in the order given.
use mathlib.Core.Path.{◌≡◌, refl}
use mathlib.Core.Logic.{◌↔◌, ◌≢◌}
use mathlib.Core.Bool.{Bool, true, false}
use mathlib.Core.Option.{Option, none, some}
use mathlib.Core.List.{List, [], ◌∷◌}
use native.Mathlib.Omega.{arith}
use design_pocs.Common.Tests.{if◌then◌else◌}
use design_pocs.Common.Lists.{All}

pub record Eq {ℓ} (K : Type ℓ) : Type ℓ where
  pub beq : K → K → Bool
  pub beq_iff : (a b : K) → (beq a b ≡ true) ↔ (a ≡ b)

module _ {ℓ} {K : Type ℓ} (e : Eq K) where
  pub beq_refl : (k : K) → e.beq k k ≡ true
  beq_refl k = (e.beq_iff k k).1 refl

  pub beq_ne : (j k : K) → j ≢ k → e.beq j k ≡ false
  beq_ne j k h = ground (arith, e.beq_iff j k)

-- A predicate of the value, where there is one.
abbrev pub Maybe {κ μ} : {V : Type κ} → (V → Type μ) → Option V → Type μ
Maybe P none = Unit {μ}
Maybe P (some v) = P v

if-Maybe {κ μ} :
    {V : Type κ} (P : V → Type μ) (b : Bool) (x y : Option V)
    → Maybe P x
    → Maybe P y
    → Maybe P (if b then x else y)
if-Maybe P true x y h k = h
if-Maybe P false x y h k = k

if-All {κ μ} :
    {V : Type κ} (P : V → Type μ) (b : Bool) (x y : List V)
    → All P x
    → All P y
    → All P (if b then x else y)
if-All P true x y h k = h
if-All P false x y h k = k

module _ {ℓ κ} {K : Type ℓ} {V : Type κ} ⦃e : Eq K⦄ where
  unfoldable pub lookup : K → List (K × V) → Option V
  lookup k [] = none
  lookup k ((j, v) ∷ m) = if e.beq j k then some v else lookup k m

  -- delete(m, k)
  unfoldable pub remove : K → List (K × V) → List (K × V)
  remove k [] = []
  remove k ((j, v) ∷ m) = let rest = remove k m in if e.beq j k then rest else (j, v) ∷ rest

  -- m[k] = v, in place where the key is there
  unfoldable pub insert : K → V → List (K × V) → List (K × V)
  insert k v [] = (k, v) ∷ []
  insert k v ((j, w) ∷ m) =
      let rest = insert k v m in if e.beq j k then (k, v) ∷ m else (j, w) ∷ rest

  pub lookup-insert :
      (k j : K) (v : V) (m : List (K × V))
      → lookup j (insert k v m) ≡ (if e.beq k j then some v else lookup j m)
  unfolding lookup insert
  lookup-insert k j v [] = refl
  lookup-insert k j v ((i, w) ∷ m) =
      ground (arith, e.beq_iff k j, e.beq_iff i k, e.beq_iff i j, lookup-insert k j v m)

  pub lookup-remove :
      (k j : K) (m : List (K × V))
      → lookup j (remove k m) ≡ (if e.beq k j then none else lookup j m)
  unfolding lookup remove
  lookup-remove k j [] = ground arith
  lookup-remove k j ((i, w) ∷ m) =
      ground (arith, e.beq_iff k j, e.beq_iff i k, e.beq_iff i j, lookup-remove k j m)

  pub lookup-insert_self : (k : K) (v : V) (m : List (K × V)) → lookup k (insert k v m) ≡ some v
  lookup-insert_self k v m = ground (arith, lookup-insert k k v m, beq_refl e k)

  pub lookup-insert_ne :
      (k j : K) (v : V) (m : List (K × V)) → k ≢ j → lookup j (insert k v m) ≡ lookup j m
  lookup-insert_ne k j v m h = ground (arith, lookup-insert k j v m, beq_ne e k j h)

  pub lookup-remove_self : (k : K) (m : List (K × V)) → lookup k (remove k m) ≡ none
  lookup-remove_self k m = ground (arith, lookup-remove k k m, beq_refl e k)

  pub lookup-remove_ne : (k j : K) (m : List (K × V)) → k ≢ j → lookup j (remove k m) ≡ lookup j m
  lookup-remove_ne k j m h = ground (arith, lookup-remove k j m, beq_ne e k j h)

  pub lookup-Maybe {μ} :
      (P : V → Type μ) (k : K) (m : List (K × V)) → All (λ p. P p.1) m → Maybe P (lookup k m)
  unfolding lookup
  lookup-Maybe P k [] h = tt
  lookup-Maybe P k ((j, v) ∷ m) (h, hs) =
      if-Maybe P (e.beq j k) (some v) (lookup k m) h (lookup-Maybe P k m hs)

  pub insert-Every {μ} :
      (P : K × V → Type μ) (k : K) (v : V) (m : List (K × V))
      → P (k, v)
      → All P m
      → All P (insert k v m)
  unfolding insert
  insert-Every P k v [] h hs = (h, tt)
  insert-Every P k v ((j, w) ∷ m) h (h', hs) =
      if-All P (e.beq j k) ((k, v) ∷ m) ((j, w) ∷ insert k v m) (h, hs)
        (h', insert-Every P k v m h hs)

  pub insert-All {μ} :
      (P : V → Type μ) (k : K) (v : V) (m : List (K × V))
      → P v
      → All (λ p. P p.1) m
      → All (λ p. P p.1) (insert k v m)
  insert-All P k v m h hs = insert-Every (λ p. P p.1) k v m h hs
