-- ===== src/DynamoTables.antt =====
-- relational-db/dynamo-db-implementation/dynamo/
pub mod Text
pub mod Statements
pub mod Items
pub mod Requests
pub mod Marks
pub mod Bound
pub mod Recorded
pub mod Sends
pub mod Refusals
pub mod Rows
pub mod Tests
