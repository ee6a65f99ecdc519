-- ===== src/Payment.antt =====
-- internal/domain/payment.
pub mod Intent
pub mod Transaction
pub mod VerifiedPayment
pub mod BookingCheckoutPolicy
pub mod World
pub mod Service
pub mod AdminPolicy
pub mod AdminService
