-- ===== src/DynamoTables/Bound.antt =====
-- relational-db/dynamo-db-implementation/dynamo/dynamodb.go: each statement has as many question marks as
-- arguments, if the names in it have none.
use design_pocs.Common.{
  ℕ, ◌≡◌, refl, Bool, true, false, ◌||◌, List, [], ◌∷◌, ◌++◌, map, arith, All, length,
  if◌then◌else◌, Bytes, bytes_eq, bytes_key, codes,
}
use design_pocs.DynamoTables.Text.{join}
use design_pocs.DynamoTables.Statements.{
  Any, nil, text, other, KeyAttributes, LocalSecondaryIndex, TableAttributes, CreateTableInput,
  PutItemInput, GetItemInput, QueryInput, is_nil, is_text, spelled, sort_column, attribute_columns,
  primary_key, index_clauses, create_statement, and_sort_key, get_statement, get_args, put_columns,
  put_args, put_statement, sort_names, order_clause, query_statement, query_args,
}
use design_pocs.DynamoTables.Marks.{
  marks, marks-append, join_plain, length-map, append-All, if_plain, placeholders_marks,
  placeholders-length,
}

module _ (print : ℕ → Bytes) where
  -- Key columns, and the sort keys of the indexes, without a question mark.
  abbrev pub IsPlainKey : KeyAttributes → Type 0
  IsPlainKey k = (marks k.partition_key ≡ 0) × (marks (spelled print k.sort_key) ≡ 0)

  abbrev pub IsPlainTable : TableAttributes → Type 0
  IsPlainTable t = IsPlainKey t.key_attributes × All (λ i. marks i.index_sort_key ≡ 0) t.indexes

  marks-and_sort_key :
      (k v : Any)
      → marks (spelled print k) ≡ 0
      → marks (and_sort_key print k) ≡ length (if is_nil k then [] else v ∷ [])
  marks-and_sort_key nil v h = refl
  marks-and_sort_key (text s) v h = omega (arith, marks-append s (codes " = ?"))
  marks-and_sort_key (other n) v h = omega (arith, marks-append (print n) (codes " = ?"))

  pub get_statement_bound :
      (k : KeyAttributes) (input : GetItemInput)
      → IsPlainKey k
      → marks input.get_projection ≡ 0
      → marks input.get_name ≡ 0
      → marks (get_statement print k input) ≡ length (get_args k input)
  unfolding get_statement get_args
  get_statement_bound k input plain p n =
      omega (arith, marks-append, marks-and_sort_key k.sort_key input.get_sort_key plain.1)

  sort_names-All : (k : Any) → marks (spelled print k) ≡ 0 → All (λ x. marks x ≡ 0) (sort_names k)
  sort_names-All nil h = tt
  sort_names-All (text s) h = (h, tt)
  sort_names-All (other n) h = tt

  pairs_plain :
      (m : List (Bytes × Bytes))
      → All (λ p. marks p.0 ≡ 0) m
      → All (λ x. marks x ≡ 0) (map (λ p. p.0) m)
  pairs_plain [] h = tt
  pairs_plain (p ∷ m) (h, hs) = (h, pairs_plain m hs)

  columns_plain :
      (k : KeyAttributes) (input : PutItemInput)
      → IsPlainKey k
      → All (λ p. marks p.0 ≡ 0) input.put_values
      → marks (join (codes ", ") (put_columns k input)) ≡ 0
  unfolding put_columns
  columns_plain k input plain h =
      join_plain (k.partition_key ∷ sort_names k.sort_key ++ map (λ p. p.0) input.put_values) (
        plain.0,
        append-All (λ x. marks x ≡ 0) (sort_names k.sort_key) (map (λ p. p.0) input.put_values)
            (sort_names-All k.sort_key plain.1) (pairs_plain input.put_values h),
      )

  pub put_statement_bound :
      (k : KeyAttributes) (input : PutItemInput)
      → IsPlainKey k
      → marks input.put_name ≡ 0
      → All (λ p. marks p.0 ≡ 0) input.put_values
      → marks (put_statement k input) ≡ length (put_args k input)
  unfolding put_statement
  put_statement_bound k input plain n h = omega (
    arith,
    marks-append,
    columns_plain k input plain h,
    placeholders_marks k input,
    placeholders-length k input,
  )

  order_clause_plain :
      (k : Bytes) (forward : Bool) → marks k ≡ 0 → marks (order_clause k forward) ≡ 0
  order_clause_plain [] forward h = refl
  order_clause_plain (c ∷ k) true h = omega (arith, marks-append (c ∷ k) (codes " ASC"))
  order_clause_plain (c ∷ k) false h = omega (arith, marks-append (c ∷ k) (codes " DESC"))

  pub query_statement_bound :
      (k : Bytes) (input : QueryInput)
      → marks k ≡ 0
      → marks input.query_projection ≡ 0
      → marks input.query_name ≡ 0
      → marks input.key_condition ≡ length input.key_values
      → marks (query_statement k input) ≡ length (query_args input)
  unfolding query_statement query_args
  query_statement_bound k input key p n c = omega (
    arith,
    marks-append,
    order_clause_plain k input.scan_index_forward key,
    length-map (λ (p : Bytes × Bytes). text p.1) input.key_values,
  )

  attribute_columns_plain :
      (k : KeyAttributes) (attrs : List Bytes)
      → All (λ a. marks a ≡ 0) attrs
      → marks (attribute_columns print k attrs) ≡ 0
  attribute_columns_plain k [] h = refl
  attribute_columns_plain k (a ∷ attrs) (h, hs) =
      let rest = attribute_columns print k attrs in
      let same = attribute_columns_plain k attrs hs in
      if_plain (bytes_eq a k.partition_key || is_text k.sort_key a) rest
        (a ++ codes " VARCHAR(255)," ++ rest) same (omega (arith, marks-append))

  index_clauses_plain :
      (p : Bytes) (is : List LocalSecondaryIndex)
      → marks p ≡ 0
      → All (λ i. marks i.index_name ≡ 0) is
      → All (λ i. marks i.index_sort_key ≡ 0) is
      → marks (index_clauses print p is) ≡ 0
  index_clauses_plain p [] h names keys = refl
  index_clauses_plain p (i ∷ is) h (n, names) (k, keys) =
      omega (arith, marks-append, index_clauses_plain p is h names keys)

  primary_key_plain :
      (p : Bytes) (k : Any)
      → marks p ≡ 0
      → marks (spelled print k) ≡ 0
      → marks (primary_key print p k) ≡ 0
  primary_key_plain p nil h j = omega (arith, marks-append)
  primary_key_plain p (text s) h j = omega (arith, marks-append)
  primary_key_plain p (other n) h j = omega (arith, marks-append)

  sort_column_plain : (k : Any) → marks (spelled print k) ≡ 0 → marks (sort_column print k) ≡ 0
  sort_column_plain nil h = refl
  sort_column_plain (text s) h = omega (arith, marks-append s)
  sort_column_plain (other n) h = omega (arith, marks-append (print n))

  -- The names in a CreateTable call without a question mark.
  abbrev pub IsPlainCreate : CreateTableInput → Type 0
  IsPlainCreate input =
      (marks input.create_name ≡ 0)
      × IsPlainKey input.keys
      × All (λ a. marks a ≡ 0) input.attributes
      × All (λ i. marks i.index_name ≡ 0) input.lsis
      × All (λ i. marks i.index_sort_key ≡ 0) input.lsis

  pub create_statement_bound :
      (input : CreateTableInput) → IsPlainCreate input → marks (create_statement print input) ≡ 0
  unfolding create_statement
  create_statement_bound input (n, k, attrs, names, keys) = omega (
    arith,
    marks-append,
    k.0,
    sort_column_plain input.keys.sort_key k.1,
    attribute_columns_plain input.keys input.attributes attrs,
    primary_key_plain input.keys.partition_key input.keys.sort_key k.0 k.1,
    index_clauses_plain input.keys.partition_key input.lsis k.0 names keys,
  )
