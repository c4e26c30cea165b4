-- ===== src/Tests.antt =====
-- Runs of the modelled functions (src/buffer.cc) on a small buffer, and the theorems applied to it.
pub mod Sample
mod Positions
mod Edits
mod Undo
mod Tracking
mod Ranges
mod Texts
mod CommandLines
mod JsonTexts
mod SelectionRuns
mod ParameterRuns
mod Colors
mod Jumps
