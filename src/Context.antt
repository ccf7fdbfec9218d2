-- ===== src/Context.antt =====
-- context.py: what a prompt is estimated to take, and the window of the transcript that one
-- provider call is given.
pub mod Estimate
pub mod Turns
pub mod Plan
mod Tests
