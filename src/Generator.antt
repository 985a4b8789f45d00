-- ===== src/Generator.antt =====
-- src/tools/qtprotoccommon: what the code generators share.
pub mod Text
pub mod Options
pub mod Namespace
