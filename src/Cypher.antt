-- ===== src/Cypher.antt =====
-- crates/rb-storage-neo4j/src: the Cypher scanners (write_check.rs, injector.rs) and the tenant
-- label (label.rs). A query is its list of bytes; a scanner's index `i` is the suffix that is left.
pub mod Scan
pub mod WriteCheck
pub mod Label
pub mod Inject
