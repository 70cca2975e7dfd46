-- ===== src/DynamoTables/Sends.antt =====
-- relational-db/dynamo-db-implementation/dynamo/dynamodb.go: what reaches the database in a run of requests.
use design_pocs.Common.{
  ℕ, ◌≡◌, refl, Bool, true, false, ◌||◌, Option, none, some, List, [], ◌∷◌, All, if◌then◌else◌,
  Bytes, bytes_eq, bytes_key, lookup, Maybe,
}
use design_pocs.DynamoTables.Statements.{
  Any, nil, text, other, LocalSecondaryIndex, TableAttributes, QueryInput, spelled,
}
use design_pocs.DynamoTables.Requests.{
  Cursor, DynamoDb, SortKey, order_by, index_missing, not_text, index_key, primary_sort_key,
  effective_sort_key, fails, table_and_key_required, query_found, query_by, query,
}
use design_pocs.DynamoTables.Marks.{marks}
use design_pocs.DynamoTables.Bound.{IsPlainTable, query_statement_bound}
use design_pocs.DynamoTables.Recorded.{
  Log, recorder, IsBound, Request, create_request, put_request, get_request, query_request,
  new_dynamo_db, run_request, run_requests, IsPlain, Inv, create-Inv, put-Inv, get-Inv, table_plain,
  if-Inv,
}

module _ (print : ℕ → Bytes) (refusal : Log → Option ℕ) (rows : Log → Cursor) where
  -- The sort key that a query orders by has no question mark.
  abbrev IsPlainOrder : SortKey → Type 0
  IsPlainOrder (order_by s) = marks s ≡ 0
  IsPlainOrder (index_missing name) = Unit {0}
  IsPlainOrder not_text = Unit {0}

  if-IsPlainOrder :
      (b : Bool) (x y : SortKey)
      → IsPlainOrder x
      → IsPlainOrder y
      → IsPlainOrder (if b then x else y)
  if-IsPlainOrder true x y h k = h
  if-IsPlainOrder false x y h k = k

  index_key-IsPlainOrder :
      (name : Bytes) (is : List LocalSecondaryIndex)
      → All (λ i. marks i.index_sort_key ≡ 0) is
      → IsPlainOrder (index_key name is)
  unfolding index_key
  index_key-IsPlainOrder name [] h = tt
  index_key-IsPlainOrder name (i ∷ is) (h, hs) =
      if-IsPlainOrder (bytes_eq i.index_name name) (order_by i.index_sort_key) (index_key name is) h
        (index_key-IsPlainOrder name is hs)

  primary-IsPlainOrder : (k : Any) → marks (spelled print k) ≡ 0 → IsPlainOrder (primary_sort_key k)
  primary-IsPlainOrder nil h = refl
  primary-IsPlainOrder (text s) h = h
  primary-IsPlainOrder (other n) h = tt

  effective-IsPlainOrder :
      (t : TableAttributes) (i : Any) → IsPlainTable print t → IsPlainOrder (effective_sort_key t i)
  unfolding effective_sort_key
  effective-IsPlainOrder t nil (key, keys) = primary-IsPlainOrder t.key_attributes.sort_key key.1
  effective-IsPlainOrder t (text []) (key, keys) =
      primary-IsPlainOrder t.key_attributes.sort_key key.1
  effective-IsPlainOrder t (text (c ∷ name)) (key, keys) =
      index_key-IsPlainOrder (c ∷ name) t.indexes keys
  effective-IsPlainOrder t (other n) h = tt

  query_by-Inv :
      (k : SortKey) (input : QueryInput) (d : DynamoDb Log)
      → IsPlainOrder k
      → IsPlain print (query_request input)
      → Inv print d
      → Inv print (query_by (recorder refusal rows) print input d k).0
  query_by-Inv (order_by s) input d key (p, n, c) (bound, plain) =
      ((query_statement_bound print s input key p n c, bound), plain)
  query_by-Inv (index_missing name) input d key h inv = inv
  query_by-Inv not_text input d key h inv = inv

  query_found-Inv :
      (input : QueryInput) (d : DynamoDb Log) (o : Option TableAttributes)
      → Maybe (IsPlainTable print) o
      → IsPlain print (query_request input)
      → Inv print d
      → Inv print (query_found (recorder refusal rows) print input d o).0
  query_found-Inv input d none t h inv = inv
  query_found-Inv input d (some t) plain h inv =
      query_by-Inv (effective_sort_key t input.index) input d
        (effective-IsPlainOrder t input.index plain) h inv

  query-Inv :
      (input : QueryInput) (d : DynamoDb Log)
      → IsPlain print (query_request input)
      → Inv print d
      → Inv print (query (recorder refusal rows) print input d).0
  unfolding query
  query-Inv input d h inv =
      let o = lookup input.query_name d.table_attributes in
      if-Inv print refusal rows (bytes_eq input.query_name [] || bytes_eq input.key_condition [])
        (d, fails table_and_key_required) (query_found (recorder refusal rows) print input d o) inv
        (query_found-Inv input d o (table_plain print refusal rows input.query_name d inv) h inv)

  run_request-Inv :
      (r : Request) (d : DynamoDb Log)
      → IsPlain print r
      → Inv print d
      → Inv print (run_request (recorder refusal rows) print r d)
  run_request-Inv (create_request input) d h inv = create-Inv print refusal rows input d h inv
  run_request-Inv (put_request input) d h inv = put-Inv print refusal rows input d h inv
  run_request-Inv (get_request input) d h inv = get-Inv print refusal rows input d h inv
  run_request-Inv (query_request input) d h inv = query-Inv input d h inv

  run_requests-Inv :
      (rs : List Request) (d : DynamoDb Log)
      → All (IsPlain print) rs
      → Inv print d
      → Inv print (run_requests (recorder refusal rows) print rs d)
  run_requests-Inv [] d h inv = inv
  run_requests-Inv (r ∷ rs) d (h, hs) inv =
      run_requests-Inv rs (run_request (recorder refusal rows) print r d) hs
        (run_request-Inv r d h inv)

-- In any run of requests on a new DynamoDB, with any answers of the database, each call in its own way,
-- whose names and projections have no question mark and whose key conditions have one for each of their
-- values, every statement that reaches the database has as many question marks as arguments.
pub run_requests-IsBound :
    (print : ℕ → Bytes) (refusal : Log → Option ℕ) (rows : Log → Cursor) (rs : List Request)
    → All (IsPlain print) rs
    → All IsBound (run_requests (recorder refusal rows) print rs new_dynamo_db).db_conn
run_requests-IsBound print refusal rows rs h =
    (run_requests-Inv print refusal rows rs new_dynamo_db h (tt, tt)).0
