-- ===== src/Lib.antt =====
-- A model of the core of the LoResuelvo API: how a service proposal is priced and accepted, how it is
-- paid for in two parts, and the life of the work order that comes of it, with its completion report,
-- its review and the moderation of that review; what operators are shown of payments and providers of
-- their activity and collections; how providers prove their identity, how operators keep the
-- categories of services, how claims are submitted and closed, and how devices are registered.
--
-- The parts and their files. Each function here has the name of the Go function or method, in snake
-- case, and a method takes its receiver as an argument and returns it as it leaves it.
--   * ServiceProposal/BookingTerms: internal/domain/service_proposal/booking_terms.go, the booking
--     policy and the terms that it makes; the arithmetic of int64 wraps (Common/Int).
--   * ServiceProposal/Proposal: internal/domain/service_proposal/service_proposal.go.
--   * WorkOrder/State, WorkOrder/Order, WorkOrder/Order/Methods: the states and the aggregate of
--     internal/domain/work_order/{state,work_order}.go; WorkOrder/Restore and its children:
--     restore_factory.go; WorkOrder/CompletionReport, WorkOrder/Review and its children:
--     completion_report.go, review.go, review_report.go and review_moderation.go.
--   * Payment/Intent and its children, Payment/Transaction, Payment/VerifiedPayment,
--     Payment/BookingCheckoutPolicy: the files of the same names in internal/domain/payment.
--   * Payment/Service, Payment/Service/Checkout, Payment/Service/Notifications:
--     internal/domain/payment/service.go. Payment/World holds what the service runs on: the tables
--     behind its repositories. Payment/World/{Repositories,Orders,Columns} are the
--     statements of internal/adapters/repositories, as functions of the tables.
--   * Payment/AdminPolicy and its children, Payment/AdminService: admin_policy.go, admin_query.go and
--     admin_service.go of internal/domain/payment, what operators are shown of payments. Payment/
--     AdminPolicy/Contract reads an intent of the code as the columns that the SQL of
--     internal/adapters/repositories/admin_payment_reader.go selects.
--   * Provider and its children: activity_query.go, statistics_period.go, activity_service.go and
--     collection_service.go of internal/domain/provider, and the read models they return.
--   * WorkOrder/Service and its children, WorkOrder/Reminders: CreateReview, ReportCompletion and
--     UrgentNotification of internal/domain/work_order/service.go, with the statements of their
--     repositories.
--   * IdentityVerification and its children: internal/domain/identityverification, and the statements
--     of its repository in IdentityVerification/Store.
--   * Category and its children: internal/domain/category, with the statements in Category/Store and
--     the use cases in Category/Service.
--   * Claim and its children: internal/domain/claim. Claim/{References,Submissions,Administration} are
--     reference.go, submission.go and administration.go, Claim/Service and Claim/AdminService the two
--     services, Claim/Store their statements.
--   * Installation and its children: internal/domain/installation, with the statements of its
--     repository in Installation/Service.
--   * Audit, Audit/Event: internal/domain/audit/event.go.
--   * Work: what every service runs on, which is tables, a clock, the ids that the generator will give,
--     and a list of faults, of which each call of a port takes the next. Work/Runs,
--     Work/Hoare, Work/Statements and Work/Keeps are the rules by which calls are reasoned about.
--   * Notification, User, Errors: internal/domain/{notification,user} and the sentinel
--     errors of the domain packages, as far as the parts above use them.
--   * Witnesses: contracts, orders, intents and a small database on which the theorems are applied.
-- The booking terms of a proposal fix the amounts of the two payment intents; a verified payment of
-- the first accepts the proposal and makes the work order, a verified payment of the second pays it.
--
-- An error is a value: `Outcome` is Go's pair of a value and an error, and a method of a nil pointer
-- is the error `nil_dereference`. Instants are nanoseconds counted from the least `time.Time`
-- (Time). Every loop is structural recursion on a list, but the loop over the buckets of a period in
-- Provider/Buckets, which has fuel of one step for each nanosecond of the period and one more: that is
-- enough because a bucket starts later than the one before it.
--
-- Parameters: the remote payment service, the decryption of credentials and Go's
-- `url.ParseRequestURI` (the record `Gateway` and the section of Payment/Intent/Marks); the hosted
-- verifier of identities, the test of UUIDs and the hashes of installations, `strings.ToUpper` and
-- `strings.ToLower`; `uuid.Parse`, the hashes of claims, and the search for the operation of a claim
-- and its images (Claim/Submissions, Claim/Service); the readers of statistics and of pages of
-- payments; the preparation of the images of a report (WorkOrder/Service); Go's time zones, which
-- are a calendar where a theorem says so (Provider/Period/Calendar). Of the database, the conflict
-- of unique indexes, the order by creation and the rollback of a transaction are written out.
--
-- Not modelled: calls of the service that run at the same time (the lock is the two database calls
-- that take and release it), locations of times, text that is not well-formed UTF-8, the conversion
-- of percentages to floating point, logging, and the parts of the repository that are not named
-- above: its HTTP handlers, the other read models, chatbot, realtime delivery and wiring, the
-- listings of claims, categories, collected transactions and audit events, and the domain packages
-- of conversations, job requests, files, calendars and payment accounts.
pub mod Common
pub mod Errors
pub mod Time
pub mod Work
pub mod Notification
pub mod User
pub mod Audit
pub mod ServiceProposal
pub mod WorkOrder
pub mod Payment
pub mod Provider
pub mod IdentityVerification
pub mod Category
pub mod Claim
pub mod Installation
pub mod Witnesses
