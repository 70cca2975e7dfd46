-- ===== src/DynamoTables/Marks.antt =====
-- Counting the question marks of the texts of relational-db/dynamo-db-implementation/dynamo/dynamodb.go.
use design_pocs.Common.{
  ℕ, suc, ◌+◌, ◌≡◌, refl, ap, Bool, true, false, List, [], ◌∷◌, ◌++◌, map, arith, All, length,
  length-append, ◌==◌, if◌then◌else◌, Bytes, bytes_key, codes,
}
use design_pocs.DynamoTables.Text.{join}
use design_pocs.DynamoTables.Statements.{
  Any, nil, text, other, KeyAttributes, PutItemInput, put_placeholders, put_args, sort_places,
  sort_values,
}

-- The question marks of a text.
abbrev pub marks : Bytes → ℕ
marks [] = 0
marks (c ∷ s) = let rest = marks s in if c == 63 then suc rest else rest

pub marks-append : (a b : Bytes) → marks (a ++ b) ≡ marks a + marks b
marks-append [] b = omega arith
marks-append (c ∷ a) b = ground (arith, marks-append a b)

pub join_plain : (xs : List Bytes) → All (λ x. marks x ≡ 0) xs → marks (join (codes ", ") xs) ≡ 0
unfolding join
join_plain [] h = refl
join_plain (x ∷ []) (h, hs) = h
join_plain (x ∷ y ∷ xs) (h, hs) = omega (arith, marks-append, join_plain (y ∷ xs) hs)

pub marks-join :
    (xs : List Bytes) → All (λ x. marks x ≡ 1) xs → marks (join (codes ", ") xs) ≡ length xs
unfolding join
marks-join [] h = refl
marks-join (x ∷ []) (h, hs) = h
marks-join (x ∷ y ∷ xs) (h, hs) = omega (arith, marks-append, marks-join (y ∷ xs) hs)

pub length-map {ℓ κ} :
    {A : Type ℓ} {B : Type κ} (f : A → B) (xs : List A) → length (map f xs) ≡ length xs
length-map f [] = refl
length-map f (x ∷ xs) = ap suc (length-map f xs)

pub map-All {ℓ κ μ} :
    {A : Type ℓ} {B : Type κ} (P : B → Type μ) (f : A → B) (xs : List A)
    → ((x : A) → P (f x))
    → All P (map f xs)
map-All P f [] h = tt
map-All P f (x ∷ xs) h = (h x, map-All P f xs h)

pub append-All {ℓ κ} :
    {A : Type ℓ} (P : A → Type κ) (xs ys : List A) → All P xs → All P ys → All P (xs ++ ys)
append-All P [] ys h k = k
append-All P (x ∷ xs) ys (h, hs) k = (h, append-All P xs ys hs k)

pub sort_places-All : (k : Any) → All (λ x. marks x ≡ 1) (sort_places k)
sort_places-All nil = tt
sort_places-All (text s) = (refl, tt)
sort_places-All (other n) = tt

pub sort_places-length :
    (k : Any) (m : List (Bytes × Bytes)) → length (sort_places k) ≡ length (sort_values k m)
sort_places-length nil m = refl
sort_places-length (text s) m = refl
sort_places-length (other n) m = refl

pub placeholders_marks :
    (k : KeyAttributes) (input : PutItemInput)
    → marks (join (codes ", ") (put_placeholders k input)) ≡ length (put_placeholders k input)
unfolding put_placeholders
placeholders_marks k input =
    marks-join (codes "?" ∷ sort_places k.sort_key ++ map (λ p. codes "?") input.put_values) (
      refl,
      append-All (λ x. marks x ≡ 1) (sort_places k.sort_key) (map (λ p. codes "?") input.put_values)
          (sort_places-All k.sort_key)
          (map-All (λ x. marks x ≡ 1) (λ p. codes "?") input.put_values (λ p. refl)),
    )

pub placeholders-length :
    (k : KeyAttributes) (input : PutItemInput)
    → length (put_placeholders k input) ≡ length (put_args k input)
unfolding put_placeholders put_args
placeholders-length k input = omega (
  arith,
  length-append (sort_places k.sort_key) (map (λ p. codes "?") input.put_values),
  length-append (sort_values k.sort_key input.put_keys) (map (λ p. text p.1) input.put_values),
  length-map (λ (p : Bytes × Bytes). codes "?") input.put_values,
  length-map (λ (p : Bytes × Bytes). text p.1) input.put_values,
  sort_places-length k.sort_key input.put_keys,
)

pub if_plain : (b : Bool) (x y : Bytes) → marks x ≡ 0 → marks y ≡ 0 → marks (if b then x else y) ≡ 0
if_plain true x y h k = h
if_plain false x y h k = k
