-- ===== src/Artifact.antt =====
-- internal/artifact/artifact.go: manifests read from the store and written back, and a stored
-- backup turned back into the plaintext dump.
pub mod Load
pub mod Reads
pub mod Materialize
pub mod Swept
pub mod Faithful
