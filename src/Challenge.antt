-- ===== src/Challenge.antt =====
-- The challenges that a portal puts before a candidate: captchas, questionnaires and assessments.
mod Session
mod Browser
mod World
mod Steps
mod Service
mod Detection
mod Questions
mod Detect
mod Inversion
mod Latest
mod Review
mod Timer
mod Answers
mod Admitted
mod Entered
mod Intervention
mod Refresh
mod Samples
mod Tests
mod ResumeTests
mod PageTests
