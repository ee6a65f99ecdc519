-- ===== src/Errors.antt =====
-- The sentinel errors of internal/domain/{service_proposal,work_order,payment,payment_account,
-- identityverification,category,claim,installation}/errors.go and
-- of internal/domain/provider, and Go's wrapping of them. Two errors are the same sentinel when their constructors are.
use loresuelvo_api.Common.{String, Bool, true, false, Result}

-- internal/domain/service_proposal/errors.go
pub data ProposalError : Type 0 where
  provider_required consumer_required invalid_amount estimated_duration_required : ProposalError
  invalid_estimated_duration invalid_scheduled_on insufficient_booking_lead_time : ProposalError
  conversation_required conversation_not_active does_not_exist : ProposalError
  only_recipient_can_accept only_pending_can_be_accepted service_proposal_expired : ProposalError
  only_participant_can_view payment_account_connection_required : ProposalError

-- internal/domain/work_order/errors.go
pub data WorkOrderError : Type 0 where
  does_not_exist work_order_not_eligible_for_full_payment invalid_work_order_state : WorkOrderError
  invalid_work_order_identity completion_report_required : WorkOrderError
  completion_report_description_required completion_report_image_count : WorkOrderError
  completion_report_image_required completion_report_duplicate_image : WorkOrderError
  completion_report_image_not_available completion_report_reported_on_required : WorkOrderError
  completion_report_already_exists only_assigned_provider_can_report : WorkOrderError
  work_order_not_ready_for_completion work_order_not_awaiting_payment : WorkOrderError
  work_order_already_paid only_work_order_consumer_can_checkout : WorkOrderError
  work_order_not_scheduled_yet paid_on_required : WorkOrderError
  work_order_completion_image_not_available work_order_unit_of_work_required : WorkOrderError
  only_work_order_participant_can_view review_required review_rating_out_of_range : WorkOrderError
  review_description_too_long only_work_order_consumer_can_review : WorkOrderError
  work_order_not_paid review_already_exists invalid_review_report : WorkOrderError
  review_report_forbidden review_not_available review_report_already_exists : WorkOrderError
  review_report_not_found invalid_review_moderation review_moderation_conflict : WorkOrderError

-- internal/domain/payment/{errors,admin_query}.go
pub data PaymentError : Type 0 where
  invalid_intent invalid_checkout_session invalid_external_payment : PaymentError
  only_proposal_recipient_can_checkout only_proposal_recipient_can_view : PaymentError
  proposal_not_pending booking_payment_deadline_reached intent_does_not_exist : PaymentError
  invalid_payment_transaction invalid_service_proposal transaction_does_not_exist : PaymentError
  invalid_work_order only_work_order_consumer_can_checkout : PaymentError
  work_order_already_fully_paid work_order_not_scheduled : PaymentError
  service_balance_payment_not_available admin_payment_amount_overflow : PaymentError
  invalid_admin_payment_query : PaymentError

-- internal/domain/identityverification/errors.go
pub data IdentityError : Type 0 where
  provider_required invalid_verification verification_already_approved : IdentityError
  verifier_unavailable verifier_misconfigured session_not_found : IdentityError

-- internal/domain/category/errors.go
pub data CategoryError : Type 0 where
  name_required name_too_long id_required already_exists does_not_exist : CategoryError
  version_required version_conflict no_changes invalid_reason : CategoryError
  confirmation_required disabled : CategoryError

-- internal/domain/claim/errors.go
pub data ClaimError : Type 0 where
  administration_record_conflict invalid_resolution invalid_transition : ClaimError
  administration_key_conflict invalid_submission invalid_idempotency_key : ClaimError
  invalid_criteria forbidden not_found submission_key_conflict : ClaimError
  open_claim_conflict evidence_access_unavailable invalid_evidence : ClaimError
  persistence_conflict : ClaimError

-- internal/domain/installation/errors.go
pub data InstallationError : Type 0 where
  invalid_installation forbidden not_found conflict : InstallationError

-- internal/domain/provider/{activity_query,activity_service,collection_service}.go
pub data ProviderError : Type 0 where
  invalid_activity_query activity_forbidden activity_provider_not_found : ProviderError
  invalid_collection_query : ProviderError

-- `errors.New` and `fmt.Errorf` without `%w` are a `message`, `fmt.Errorf("...: %w", err)` is
-- `wrapped`. A value that a message formats in is left out of it. `nil_dereference` is the panic of
-- a method on a nil pointer; `external` is an error of a
-- database, of the network or of a remote service.
pub data Error : Type 0 where
  proposal : ProposalError → Error
  work_order : WorkOrderError → Error
  payment : PaymentError → Error
  identity : IdentityError → Error
  category : CategoryError → Error
  claim : ClaimError → Error
  installation : InstallationError → Error
  provider : ProviderError → Error
  connection_not_found : Error
  user_not_found : Error
  nil_dereference : Error
  message : String → Error
  external : String → Error
  wrapped : String → Error → Error

abbrev pub Outcome {ℓ} : Type ℓ → Type ℓ
Outcome A = Result Error A

abbrev is_no_intent : PaymentError → Bool
is_no_intent PaymentError.intent_does_not_exist = true
is_no_intent _ = false

abbrev is_no_transaction : PaymentError → Bool
is_no_transaction PaymentError.transaction_does_not_exist = true
is_no_transaction _ = false

-- `errors.Is(err, ErrIntentDoesNotExist)`
abbrev pub is_intent_does_not_exist : Error → Bool
is_intent_does_not_exist (payment e) = is_no_intent e
is_intent_does_not_exist (wrapped s e) = is_intent_does_not_exist e
is_intent_does_not_exist _ = false

-- `errors.Is(err, ErrTransactionDoesNotExist)`
abbrev pub is_transaction_does_not_exist : Error → Bool
is_transaction_does_not_exist (payment e) = is_no_transaction e
is_transaction_does_not_exist (wrapped s e) = is_transaction_does_not_exist e
is_transaction_does_not_exist _ = false
