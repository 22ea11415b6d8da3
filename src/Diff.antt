-- ===== src/Diff.antt =====
-- pkg/diff: paths, their patterns, and the comparison and filtering of decoded objects.
pub mod Segment
pub mod Value
pub mod Render
pub mod Parse
pub mod Compare
pub mod Children
pub mod Cover
pub mod Strip
pub mod Extract
pub mod RoundTrip
