-- ===== src/Api.antt =====
-- app/api/transfer.py: the endpoints on transfers. A request handler is an `Action`; what FastAPI
-- sends is its value, the status of its `HTTPException`, or 500 for any other exception.
pub mod Responses
pub mod Lifecycle
pub mod QueueRun
pub mod Direct
pub mod Creation
pub mod Internal
pub mod Final
pub mod Leak
pub mod Approval
pub mod Closing
pub mod Completion
