-- ===== src/DynamoTables/Refusals.antt =====
-- relational-db/dynamo-db-implementation/dynamo/dynamodb.go: what a request leaves behind when it fails.
use design_pocs.Common.{
  ℕ, ◌≡◌, refl, Bool, true, false, ◌||◌, Option, none, some, List, [], ◌∷◌, if◌then◌else◌, Bytes,
  bytes_eq, bytes_key, lookup, arith,
}
use design_pocs.DynamoTables.Text.{split_comma}
use design_pocs.DynamoTables.Statements.{
  Any, nil, text, other, KeyAttributes, TableAttributes, PutItemInput, GetItemInput, QueryInput,
  is_nil, is_text, value_at, get_statement, get_args, put_statement, put_args, query_statement,
  query_args,
}
use design_pocs.DynamoTables.Items.{Item, read_item, read_items}
use design_pocs.DynamoTables.Requests.{
  Cursor, refused, opened, Sql, DynamoDb, Error, table_name_required, table_and_key_required,
  no_rows_found, no_row, scan_mismatch, no_table, partition_key_required, sort_key_required,
  no_index, database, Reply, done, fails, panics, SortKey, order_by, index_missing, not_text,
  scanned, first_item, all_scanned, all_items, replaced, replace, put_sorted, put_found, got,
  get_found, queried, query_by, query_found, effective_sort_key, put_item, get_item, query,
}

-- An error that the database's answer stands behind.
abbrev pub is_from_database : Error → Bool
is_from_database table_name_required = false
is_from_database table_and_key_required = false
is_from_database no_rows_found = true
is_from_database no_row = true
is_from_database scan_mismatch = true
is_from_database (no_table t) = false
is_from_database (partition_key_required k) = false
is_from_database (sort_key_required k) = false
is_from_database (no_index i t) = false
is_from_database (database e) = true

-- A request that the database answered, with or without an error.
abbrev pub is_answered : {A : Type 0} → Reply A → Bool
is_answered (done a) = true
is_answered (fails e) = is_from_database e
is_answered panics = false

module _ {S : Type 0} where
  -- A request that the database did not answer left everything as it was.
  abbrev pub IsHarmless : {A : Type 0} → DynamoDb S → DynamoDb S × Reply A → Type 0
  IsHarmless d (d', reply) = is_answered reply ≡ false → d' ≡ d

  if-IsHarmless :
      {A : Type 0} (d : DynamoDb S) (b : Bool) (x y : DynamoDb S × Reply A)
      → IsHarmless d x
      → IsHarmless d y
      → IsHarmless d (if b then x else y)
  if-IsHarmless d true x y h k = h
  if-IsHarmless d false x y h k = k

module _ {S : Type 0} (sql : Sql S) (print : ℕ → Bytes) where
  replaced-IsHarmless :
      (d : DynamoDb S) (answer : S × Option ℕ) → IsHarmless d (replaced sql print d answer)
  replaced-IsHarmless d (s, some e) quiet = cc
  replaced-IsHarmless d (s, none) quiet = cc

  put_sorted-IsHarmless :
      (s : Any) (k : KeyAttributes) (input : PutItemInput) (d : DynamoDb S)
      → IsHarmless d (put_sorted sql print s k input d)
  put_sorted-IsHarmless nil k input d =
      replaced-IsHarmless d (sql.exec (put_statement k input) (put_args k input) d.db_conn)
  put_sorted-IsHarmless (text s) k input d =
      if-IsHarmless d (bytes_eq (value_at s input.put_keys) [])
        (d, fails (sort_key_required (text s))) (replace sql print k input d) (λ quiet. refl)
        (replaced-IsHarmless d (sql.exec (put_statement k input) (put_args k input) d.db_conn))
  put_sorted-IsHarmless (other n) k input d = λ quiet. refl

  put_found-IsHarmless :
      (input : PutItemInput) (d : DynamoDb S) (o : Option TableAttributes)
      → IsHarmless d (put_found sql print input d o)
  put_found-IsHarmless input d none = λ quiet. refl
  put_found-IsHarmless input d (some t) =
      let k = t.key_attributes in
      if-IsHarmless d (bytes_eq (value_at k.partition_key input.put_keys) [])
        (d, fails (partition_key_required k.partition_key))
        (put_sorted sql print k.sort_key k input d) (λ quiet. refl)
        (put_sorted-IsHarmless k.sort_key k input d)

  put_item-IsHarmless :
      (input : PutItemInput) (d : DynamoDb S) → IsHarmless d (put_item sql print input d)
  unfolding put_item
  put_item-IsHarmless input d =
      if-IsHarmless d (bytes_eq input.put_name []) (d, fails table_name_required)
        (put_found sql print input d (lookup input.put_name d.table_attributes)) (λ quiet. refl)
        (put_found-IsHarmless input d (lookup input.put_name d.table_attributes))

  scanned-is_answered : (o : Option Item) → is_answered (scanned sql print o) ≡ true
  scanned-is_answered none = refl
  scanned-is_answered (some m) = refl

  first_item-is_answered :
      (columns : List Bytes) (c : Cursor) → is_answered (first_item sql print columns c) ≡ true
  first_item-is_answered columns (refused e) = refl
  first_item-is_answered columns (opened [] none) = refl
  first_item-is_answered columns (opened [] (some e)) = refl
  first_item-is_answered columns (opened (row ∷ rows) ending) =
      scanned-is_answered (read_item columns row)

  got-IsHarmless :
      (input : GetItemInput) (d : DynamoDb S) (answer : S × Cursor)
      → IsHarmless d (got sql print input d answer)
  got-IsHarmless input d (s, cursor) quiet =
      ground (arith, quiet, first_item-is_answered (split_comma input.get_projection) cursor)

  get_found-IsHarmless :
      (input : GetItemInput) (d : DynamoDb S) (o : Option TableAttributes)
      → IsHarmless d (get_found sql print input d o)
  get_found-IsHarmless input d none = λ quiet. refl
  get_found-IsHarmless input d (some t) =
      let k = t.key_attributes in
      let answer = sql.select (get_statement print k input) (get_args k input) d.db_conn in
      let sent = got sql print input d answer in
      let missing : DynamoDb S × Reply Item = (d, fails (sort_key_required k.sort_key)) in
      if-IsHarmless d (is_nil k.sort_key) sent
        (if is_text input.get_sort_key [] then missing else sent) (got-IsHarmless input d answer)
        (if-IsHarmless d (is_text input.get_sort_key []) missing sent (λ quiet. refl)
          (got-IsHarmless input d answer))

  get_item-IsHarmless :
      (input : GetItemInput) (d : DynamoDb S) → IsHarmless d (get_item sql print input d)
  unfolding get_item
  get_item-IsHarmless input d =
      if-IsHarmless d (bytes_eq input.get_name [] || bytes_eq input.get_partition_key [])
        (d, fails table_and_key_required)
        (get_found sql print input d (lookup input.get_name d.table_attributes)) (λ quiet. refl)
        (get_found-IsHarmless input d (lookup input.get_name d.table_attributes))

  all_scanned-is_answered : (o : Option (List Item)) → is_answered (all_scanned sql print o) ≡ true
  all_scanned-is_answered none = refl
  all_scanned-is_answered (some m) = refl

  all_items-is_answered :
      (columns : List Bytes) (c : Cursor) → is_answered (all_items sql print columns c) ≡ true
  all_items-is_answered columns (refused e) = refl
  all_items-is_answered columns (opened rows ending) =
      all_scanned-is_answered (read_items columns rows)

  queried-IsHarmless :
      (input : QueryInput) (d : DynamoDb S) (answer : S × Cursor)
      → IsHarmless d (queried sql print input d answer)
  queried-IsHarmless input d (s, cursor) quiet =
      ground (arith, quiet, all_items-is_answered (split_comma input.query_projection) cursor)

  query_by-IsHarmless :
      (k : SortKey) (input : QueryInput) (d : DynamoDb S)
      → IsHarmless d (query_by sql print input d k)
  query_by-IsHarmless (order_by k) input d =
      queried-IsHarmless input d (sql.select (query_statement k input) (query_args input) d.db_conn)
  query_by-IsHarmless (index_missing name) input d = λ quiet. refl
  query_by-IsHarmless not_text input d = λ quiet. refl

  query_found-IsHarmless :
      (input : QueryInput) (d : DynamoDb S) (o : Option TableAttributes)
      → IsHarmless d (query_found sql print input d o)
  query_found-IsHarmless input d none = λ quiet. refl
  query_found-IsHarmless input d (some t) =
      query_by-IsHarmless (effective_sort_key t input.index) input d

  query-IsHarmless : (input : QueryInput) (d : DynamoDb S) → IsHarmless d (query sql print input d)
  unfolding query
  query-IsHarmless input d =
      if-IsHarmless d (bytes_eq input.query_name [] || bytes_eq input.key_condition [])
        (d, fails table_and_key_required)
        (query_found sql print input d (lookup input.query_name d.table_attributes)) (λ quiet. refl)
        (query_found-IsHarmless input d (lookup input.query_name d.table_attributes))

-- PutItem, GetItem and Query leave the database and the registered tables as they were when they panic
-- or fail by an error that is not the database's.
pub requests-IsHarmless :
    {S : Type 0} (sql : Sql S) (print : ℕ → Bytes) (d : DynamoDb S)
    → ((input : PutItemInput) → IsHarmless d (put_item sql print input d))
      × ((input : GetItemInput) → IsHarmless d (get_item sql print input d))
      × ((input : QueryInput) → IsHarmless d (query sql print input d))
requests-IsHarmless sql print d = (
  λ input. put_item-IsHarmless sql print input d,
  λ input. get_item-IsHarmless sql print input d,
  λ input. query-IsHarmless sql print input d,
)
