-- ===== src/WorkOrder.antt =====
-- internal/domain/work_order.
pub mod CompletionReport
pub mod Review
pub mod State
pub mod Order
pub mod Restore
pub mod Reminders
pub mod Service
