-- ===== src/Binding.antt =====
-- The IM binding context of backend/domain/im_binding/model.
pub mod Route
pub mod ImBinding
pub mod ChannelInit
pub mod Registry
mod Examples
