-- ===== src/DynamoTables/Tests.antt =====
-- Runs of the requests of relational-db/dynamo-db-implementation/main.go, and each theorem at an input.
use design_pocs.Common.{
  trim_space, ℕ, ◌≡◌, refl, true, Option, none, some, List, [], ◌∷◌, All, Bytes, codes, bytes_key,
  lookup, arith,
}
use design_pocs.DynamoTables.Text.{split_comma}
use design_pocs.DynamoTables.Statements.{
  text, other, TableAttributes, CreateTableInput, PutItemInput, GetItemInput, QueryInput,
  create_statement, put_statement, get_statement, query_statement, query_args,
}
use design_pocs.DynamoTables.Items.{Row, Item}
use design_pocs.DynamoTables.Requests.{
  Cursor, opened, DynamoDb, done, effective_sort_key, create_table, put_item, get_item, query,
}
use design_pocs.DynamoTables.Recorded.{
  Log, recorder, IsBound, Request, create_request, put_request, get_request, query_request,
  new_dynamo_db, run_requests, IsPlain,
}
use design_pocs.DynamoTables.Sends.{run_requests-IsBound}
use design_pocs.DynamoTables.Refusals.{IsHarmless, requests-IsHarmless}
use design_pocs.DynamoTables.Rows.{ShowsAll, query-ShowsAll}

abbrev print_nothing : ℕ → Bytes
print_nothing n = []

abbrev orders : CreateTableInput
orders = record {
  create_name = codes "orders";
  attributes = codes "order_id" ∷ codes "user_id" ∷ codes "amount" ∷ codes "status" ∷ [];
  keys = record { partition_key = codes "user_id"; sort_key = text (codes "order_id") };
  lsis = record { index_name = codes "status_index"; index_sort_key = codes "status" } ∷ [];
}

abbrev order_1 : PutItemInput
order_1 = record {
  put_name = codes "orders";
  put_keys = (codes "order_id", codes "order#1") ∷ (codes "user_id", codes "user#1") ∷ [];
  put_values = (codes "amount", codes "250") ∷ (codes "status", codes "pending") ∷ [];
}

abbrev find_1 : GetItemInput
find_1 = record {
  get_name = codes "orders";
  get_partition_key = codes "user#1";
  get_sort_key = other 1;
  get_projection = codes "amount,status";
}

abbrev by_status : QueryInput
by_status = record {
  query_name = codes "orders";
  key_condition = codes "user_id = ? AND status = ?";
  key_values = (codes "user_id", codes "user#1") ∷ (codes "status", codes "completed") ∷ [];
  query_projection = codes "order_id, amount";
  scan_index_forward = true;
  index = text (codes "status_index");
}

creates :
    create_statement print_nothing orders
    ≡ codes
        "CREATE TABLE IF NOT EXISTS orders ( user_id VARCHAR(255) NOT NULL,order_id VARCHAR(255) NOT NULL,amount VARCHAR(255),status VARCHAR(255), PRIMARY KEY (user_id, order_id), INDEX status_index (user_id, status));"
unfolding create_statement
creates = refl

puts :
    put_statement orders.keys order_1
    ≡ codes "REPLACE INTO orders (user_id, order_id, amount, status) VALUES (?, ?, ?, ?);"
unfolding put_statement
puts = refl

gets :
    get_statement print_nothing orders.keys find_1
    ≡ codes "SELECT amount,status FROM orders WHERE user_id = ? AND order_id = ?"
unfolding get_statement
gets = refl

queries :
    query_statement (codes "status") by_status
    ≡ codes
        "SELECT order_id, amount FROM orders WHERE user_id = ? AND status = ? ORDER BY status ASC"
unfolding query_statement
queries = refl

-- The same map, met in the other order, is sent with its values in the other order.
abbrev swapped : QueryInput
swapped = record by_status {
  key_values = (codes "status", codes "completed") ∷ (codes "user_id", codes "user#1") ∷ [];
}

swapped_args : query_args swapped ≡ text (codes "completed") ∷ text (codes "user#1") ∷ []
unfolding query_args
swapped_args = refl

swapped_statement :
    query_statement (codes "status") swapped ≡ query_statement (codes "status") by_status
unfolding query_statement
swapped_statement = refl

abbrev never : Log → Option ℕ
never log = none

-- The first statement is refused.
abbrev not_first : Log → Option ℕ
not_first (q ∷ []) = some 1
not_first log = none

abbrev two_rows : List Row
two_rows =
    (some (codes "order#2") ∷ some (codes "450") ∷ []) ∷ (some (codes "order#3") ∷ none ∷ []) ∷ []

abbrev two_found : Log → Cursor
two_found log = opened two_rows (some 7)

-- The table is created at the second try.
abbrev program : List Request
program =
    create_request orders
    ∷ create_request orders
    ∷ put_request order_1
    ∷ get_request find_1
    ∷ query_request by_status
    ∷ []

program-IsPlain : All (IsPlain print_nothing) program
program-IsPlain =
    let create : IsPlain print_nothing (create_request orders) =
      (refl, (refl, refl), (refl, (refl, (refl, (refl, tt)))), (refl, tt), (refl, tt)) in
    (create, (create, ((refl, (refl, (refl, tt))), ((refl, refl), ((refl, refl, refl), tt)))))

run_requests-IsBound_example :
    All IsBound
      (run_requests (recorder not_first two_found) print_nothing program new_dynamo_db).db_conn
run_requests-IsBound_example =
    run_requests-IsBound print_nothing not_first two_found program program-IsPlain

abbrev ready : DynamoDb Log
ready = (create_table (recorder never two_found) print_nothing orders new_dynamo_db).0

requests-IsHarmless_example :
    ((input : PutItemInput)
      → IsHarmless ready (put_item (recorder never two_found) print_nothing input ready))
    × ((input : GetItemInput)
        → IsHarmless ready (get_item (recorder never two_found) print_nothing input ready))
    × ((input : QueryInput)
        → IsHarmless ready (query (recorder never two_found) print_nothing input ready))
requests-IsHarmless_example = requests-IsHarmless (recorder never two_found) print_nothing ready

abbrev orders_table : TableAttributes
orders_table = record {
  attributes_table = codes "orders";
  key_attributes = orders.keys;
  indexes = orders.lsis;
}

abbrev sent_log : Log
sent_log = (query_statement (codes "status") by_status, query_args by_status) ∷ ready.db_conn

query-ShowsAll_example :
    (ms : List Item) × (query (recorder never two_found) print_nothing by_status ready
      ≡ (record ready { db_conn = sent_log }, done ms))
    × ShowsAll (split_comma by_status.query_projection) two_rows ms
unfolding create_table effective_sort_key split_comma trim_space lookup
query-ShowsAll_example =
    query-ShowsAll (recorder never two_found) print_nothing by_status ready orders_table
      (codes "status") sent_log two_rows (some 7) refl refl refl refl ((ground arith, tt), (tt, tt))
      (refl, (refl, tt))
