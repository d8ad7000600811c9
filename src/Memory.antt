-- ===== src/Memory.antt =====
-- Versions of a project's CLAUDE.md: backend/domain/memory/model and
-- backend/application/memory/claude_md_revision_application_service.py.
pub mod Revision
pub mod Service
mod Examples
