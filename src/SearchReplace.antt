-- ===== src/SearchReplace.antt =====
-- scripts/search_replace.py: the search/replace edits of a model's answer.
pub mod Text
pub mod Parse
pub mod Apply
pub mod Spans
pub mod Edits
pub mod Misses
pub mod Lines
pub mod RoundTrip
mod Tests
