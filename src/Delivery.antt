-- ===== src/Delivery.antt =====
-- The durable IM queues: backend/domain/im_binding/model/im_delivery.py, the repositories of
-- backend/infr/repository/im_delivery_repository_impl.py and the workers of
-- backend/ohs/im_delivery_coordinator.py.
pub mod Inbox
pub mod Outbox
pub mod Policy
pub mod InboxTable
pub mod Attachments
pub mod OutboxTable
pub mod OutboxWorker
pub mod InboxWorker
pub mod InboxSteps
mod Examples
mod OrderExamples
mod OutboxExamples
mod AttachmentExamples
