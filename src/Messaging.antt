-- ===== src/Messaging.antt =====
-- The contract of the InventoryChanged domain event between the API and the search worker.
pub mod InventoryEvent
