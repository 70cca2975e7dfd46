-- ===== src/DynamoTables/Recorded.antt =====
-- relational-db/dynamo-db-implementation/dynamo/dynamodb.go: requests as data, a database that writes down what
-- it is sent, and what CreateTable, PutItem and GetItem send to it.
use design_pocs.Common.{
  ℕ, ◌≡◌, Bool, true, false, ◌||◌, Option, none, some, List, [], ◌∷◌, All, length, if◌then◌else◌,
  Bytes, bytes_eq, bytes_key, lookup, Maybe, lookup-Maybe, insert-All,
}
use design_pocs.DynamoTables.Statements.{
  Any, nil, text, other, KeyAttributes, TableAttributes, CreateTableInput, PutItemInput,
  GetItemInput, QueryInput, is_nil, is_text, value_at, create_statement, get_statement, get_args,
  put_args, put_statement,
}
use design_pocs.DynamoTables.Requests.{
  Cursor, Sql, DynamoDb, Reply, fails, table_name_required, table_and_key_required,
  sort_key_required, partition_key_required, created, replaced, put_found, got, get_found,
  create_table, replace, put_sorted, put_item, get_item, query,
}
use design_pocs.DynamoTables.Items.{Item}
use design_pocs.DynamoTables.Marks.{marks}
use design_pocs.DynamoTables.Bound.{
  IsPlainKey, IsPlainTable, IsPlainCreate, create_statement_bound, get_statement_bound,
  put_statement_bound,
}

abbrev pub Log : Type 0
Log = List (Bytes × List Any)

-- A database that writes down what it is sent, the last statement first. Its answer may depend on all of it, so
-- each call may be answered in its own way, also where a statement is sent again.
abbrev pub recorder : (Log → Option ℕ) → (Log → Cursor) → Sql Log
recorder refusal rows = record {
  exec = λ q a s. ((q, a) ∷ s, refusal ((q, a) ∷ s));
  select = λ q a s. ((q, a) ∷ s, rows ((q, a) ∷ s));
}

-- A statement with as many question marks as arguments.
abbrev pub IsBound : Bytes × List Any → Type 0
IsBound (q, a) = marks q ≡ length a

pub data Request : Type 0 where
  create_request : CreateTableInput → Request
  put_request : PutItemInput → Request
  get_request : GetItemInput → Request
  query_request : QueryInput → Request

-- NewDynamoDB
abbrev pub new_dynamo_db : DynamoDb Log
new_dynamo_db = record { db_conn = []; table_attributes = [] }

module _ {S : Type 0} (sql : Sql S) (print : ℕ → Bytes) where
  -- A request, without its reply.
  abbrev pub run_request : Request → DynamoDb S → DynamoDb S
  run_request (create_request input) d = (create_table sql print input d).0
  run_request (put_request input) d = (put_item sql print input d).0
  run_request (get_request input) d = (get_item sql print input d).0
  run_request (query_request input) d = (query sql print input d).0

  abbrev pub run_requests : List Request → DynamoDb S → DynamoDb S
  run_requests [] d = d
  run_requests (r ∷ rs) d = run_requests rs (run_request r d)

module _ (print : ℕ → Bytes) where
  -- The texts of a request have no question mark, but for one in a key condition for each of its values.
  abbrev pub IsPlain : Request → Type 0
  IsPlain (create_request input) = IsPlainCreate print input
  IsPlain (put_request input) =
      (marks input.put_name ≡ 0) × All (λ p. marks p.0 ≡ 0) input.put_values
  IsPlain (get_request input) = (marks input.get_projection ≡ 0) × (marks input.get_name ≡ 0)
  IsPlain (query_request input) =
      (marks input.query_projection ≡ 0)
      × (marks input.query_name ≡ 0)
      × (marks input.key_condition ≡ length input.key_values)

  abbrev pub Inv : DynamoDb Log → Type 0
  Inv d = All IsBound d.db_conn × All (λ p. IsPlainTable print p.1) d.table_attributes

module _ (print : ℕ → Bytes) (refusal : Log → Option ℕ) (rows : Log → Cursor) where
  created-Inv :
      (input : CreateTableInput) (d : DynamoDb Log) (log : Log) (answer : Option ℕ)
      → IsPlainCreate print input
      → All IsBound log
      → All (λ p. IsPlainTable print p.1) d.table_attributes
      → Inv print (created (recorder refusal rows) print input d (log, answer)).0
  created-Inv input d log (some e) h bound plain = (bound, plain)
  created-Inv input d log none (n, k, attrs, names, keys) bound plain =
      let t : TableAttributes = record {
        attributes_table = input.create_name;
        key_attributes = input.keys;
        indexes = input.lsis;
      } in
      (
        bound,
        insert-All (IsPlainTable print) input.create_name t d.table_attributes (k, keys) plain,
      )

  pub create-Inv :
      (input : CreateTableInput) (d : DynamoDb Log)
      → IsPlainCreate print input
      → Inv print d
      → Inv print (create_table (recorder refusal rows) print input d).0
  unfolding create_table
  create-Inv input d h (bound, plain) =
      let q = create_statement print input in
      let log : Log = (q, []) ∷ d.db_conn in
      created-Inv input d log (refusal log) h (create_statement_bound print input h, bound) plain

  replaced-Inv :
      (d : DynamoDb Log) (log : Log) (answer : Option ℕ)
      → All IsBound log
      → All (λ p. IsPlainTable print p.1) d.table_attributes
      → Inv print (replaced (recorder refusal rows) print d (log, answer)).0
  replaced-Inv d log (some e) bound plain = (bound, plain)
  replaced-Inv d log none bound plain = (bound, plain)

  replace-Inv :
      (k : KeyAttributes) (input : PutItemInput) (d : DynamoDb Log)
      → IsPlainKey print k
      → IsPlain print (put_request input)
      → Inv print d
      → Inv print (replace (recorder refusal rows) print k input d).0
  replace-Inv k input d key (n, vs) (bound, plain) =
      let q = put_statement k input in
      let log : Log = (q, put_args k input) ∷ d.db_conn in
      replaced-Inv d log (refusal log) (put_statement_bound print k input key n vs, bound) plain

  pub if-Inv :
      {A : Type 0} (b : Bool) (x y : DynamoDb Log × A)
      → Inv print x.0
      → Inv print y.0
      → Inv print (if b then x else y).0
  if-Inv true x y h k = h
  if-Inv false x y h k = k

  put_sorted-Inv :
      (s : Any) (k : KeyAttributes) (input : PutItemInput) (d : DynamoDb Log)
      → IsPlainKey print k
      → IsPlain print (put_request input)
      → Inv print d
      → Inv print (put_sorted (recorder refusal rows) print s k input d).0
  put_sorted-Inv nil k input d key h inv = replace-Inv k input d key h inv
  put_sorted-Inv (text s) k input d key h inv =
      if-Inv (bytes_eq (value_at s input.put_keys) []) (d, fails (sort_key_required (text s)))
        (replace (recorder refusal rows) print k input d) inv (replace-Inv k input d key h inv)
  put_sorted-Inv (other n) k input d key h inv = inv

  put_found-Inv :
      (input : PutItemInput) (d : DynamoDb Log) (o : Option TableAttributes)
      → Maybe (IsPlainTable print) o
      → IsPlain print (put_request input)
      → Inv print d
      → Inv print (put_found (recorder refusal rows) print input d o).0
  put_found-Inv input d none t h inv = inv
  put_found-Inv input d (some t) (key, keys) h inv =
      let k = t.key_attributes in
      if-Inv (bytes_eq (value_at k.partition_key input.put_keys) [])
        (d, fails (partition_key_required k.partition_key))
        (put_sorted (recorder refusal rows) print k.sort_key k input d) inv
        (put_sorted-Inv k.sort_key k input d key h inv)

  pub table_plain :
      (k : Bytes) (d : DynamoDb Log)
      → Inv print d
      → Maybe (IsPlainTable print) (lookup k d.table_attributes)
  table_plain k d inv = lookup-Maybe (IsPlainTable print) k d.table_attributes inv.1

  pub put-Inv :
      (input : PutItemInput) (d : DynamoDb Log)
      → IsPlain print (put_request input)
      → Inv print d
      → Inv print (put_item (recorder refusal rows) print input d).0
  unfolding put_item
  put-Inv input d h inv =
      let o = lookup input.put_name d.table_attributes in
      if-Inv (bytes_eq input.put_name []) (d, fails table_name_required)
        (put_found (recorder refusal rows) print input d o) inv
        (put_found-Inv input d o (table_plain input.put_name d inv) h inv)

  get_found-Inv :
      (input : GetItemInput) (d : DynamoDb Log) (o : Option TableAttributes)
      → Maybe (IsPlainTable print) o
      → IsPlain print (get_request input)
      → Inv print d
      → Inv print (get_found (recorder refusal rows) print input d o).0
  get_found-Inv input d none t h inv = inv
  get_found-Inv input d (some t) (key, keys) (p, n) (bound, plain) =
      let k = t.key_attributes in
      let q = get_statement print k input in
      let log : Log = (q, get_args k input) ∷ d.db_conn in
      let sent : DynamoDb Log × Reply Item =
        got (recorder refusal rows) print input d (log, rows log) in
      let sent-Inv : Inv print sent.0 =
        ((get_statement_bound print k input key p n, bound), plain) in
      if-Inv (is_nil k.sort_key) sent
        (if is_text input.get_sort_key [] then (d, fails (sort_key_required k.sort_key)) else sent)
        sent-Inv
        (if-Inv (is_text input.get_sort_key []) (d, fails (sort_key_required k.sort_key)) sent
          (bound, plain) sent-Inv)

  pub get-Inv :
      (input : GetItemInput) (d : DynamoDb Log)
      → IsPlain print (get_request input)
      → Inv print d
      → Inv print (get_item (recorder refusal rows) print input d).0
  unfolding get_item
  get-Inv input d h inv =
      let o = lookup input.get_name d.table_attributes in
      if-Inv (bytes_eq input.get_name [] || bytes_eq input.get_partition_key [])
        (d, fails table_and_key_required) (get_found (recorder refusal rows) print input d o) inv
        (get_found-Inv input d o (table_plain input.get_name d inv) h inv)
