-- ===== src/Mongo.antt =====
-- services/api/internal/store/mongo_store.go and notification.go: `MongoStore` over a parameter for
-- the MongoDB driver.
pub mod Bson
pub mod Driver
pub mod Action
pub mod Connect
pub mod Records
pub mod Create
pub mod Update
pub mod Outbox
pub mod Laws
pub mod Logged
pub mod Created
pub mod Replay
pub mod Outcome
pub mod Repeat
pub mod Updated
pub mod Versioned
pub mod Sample
pub mod Causes
pub mod Refused
pub mod Notified
pub mod Aborted
pub mod Ids
pub mod View
pub mod Refines
pub mod Past
pub mod Twice
pub mod Pending
mod Tests
