-- ===== src/Artifact.antt =====
-- artifact/artifact.go. Copy: `copyAndDigest` and `Store.Path`; Stored: `validateStoredArtifact`;
-- Publish: `Store.Put`; Inspect: `Inspect` and `Digest`. SHA-256 and the file system are parameters.
pub mod Copy
pub mod Stored
pub mod Publish
pub mod Inspect
