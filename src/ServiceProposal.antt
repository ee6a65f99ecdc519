-- ===== src/ServiceProposal.antt =====
-- internal/domain/service_proposal.
pub mod BookingTerms
pub mod Proposal
