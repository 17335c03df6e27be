-- ===== src/DocSearch.antt =====
-- The search panel of the published documentation, docs/docs_output/html/search/search.js, and the
-- settings it keeps, docs/docs_output/html/cookie.js.
pub mod Cookie
pub mod Ids
pub mod Matches
pub mod Rows
pub mod Panel
pub mod Windows
pub mod CodeFold
pub mod Keys
pub mod Dom
pub mod Walk
pub mod Sections
pub mod Box
pub mod Select
pub mod Tidy
