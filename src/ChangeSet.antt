-- ===== src/ChangeSet.antt =====
-- apps/local-server/src/change_set.rs: a ChangeSet is what a provider proposes. It is parsed,
-- validated against the Accepted files, applied to a copy of them, and described for review.
pub mod Types
pub mod Path
pub mod Graph
pub mod Validate
pub mod Apply
pub mod Diff
pub mod Reference
pub mod Markup
pub mod Behavior
pub mod Accessibility
pub mod Review
pub mod Tests
pub mod Examples
