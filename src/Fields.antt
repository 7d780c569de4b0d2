-- ===== src/Fields.antt =====
-- The fields of a portal's page: which required controls are covered, and the execution of one.
mod Data
mod Classification
mod Coverage
mod Action
mod Execution
mod Handover
mod Approval
mod Prepared
mod Approved
mod Sorting
mod Review
mod Counts
mod Admission
mod Ready
mod Automatic
mod Readiness
mod Unlabelled
mod Compatibility
mod Binding
mod Bound
mod Places
mod Unambiguous
mod Approvals
mod Samples
mod Tests
mod BindingTests
