-- ===== src/Media.antt =====
-- The retention of media that the program uploads to an AI provider.
pub mod Row
pub mod Store
pub mod Listing
pub mod Tables
pub mod Inversion
pub mod Validity
pub mod Lifecycle
pub mod Ownership
pub mod Fencing
pub mod Recovery
pub mod Journal
pub mod Cleanup
pub mod Worker
pub mod Reach
pub mod Batch
pub mod Closing
mod Tests
mod ServiceTests
