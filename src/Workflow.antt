-- ===== src/Workflow.antt =====
-- The workflow of a job application: its states, the transitions between them, the event log.
pub mod State
pub mod Transitions
pub mod Table
pub mod Trails
pub mod Events
pub mod Service
pub mod Rows
pub mod Log
pub mod History
pub mod Workbench
pub mod Apply
pub mod Controls
pub mod Mock
pub mod Samples
mod Tests
mod WorkbenchTests
