-- ===== src/Iso.antt =====
-- The ISO library: backend/internal/iso/iso.go. What the library github.com/kdomanski/iso9660 reads
-- of an image is the tree of Iso/Image; opening an image, SHA-256 and the globs of path.Match are
-- arguments. Failures of the disk are not modelled, but an upload may break off.
pub mod Image
pub mod Matching
pub mod Library
mod Examples
