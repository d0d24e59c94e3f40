-- ===== src/Fs.antt =====
-- src/shk/src/fs: file ids, the operations that the program asks of a file system, fingerprints.
pub mod FileId
pub mod FileSystem
pub mod Fingerprint
mod Tests
