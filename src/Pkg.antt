-- ===== src/Pkg.antt =====
-- The package format of pkg/aiiospkg: versions, the declarations of a package, revocations, the
-- member tree and its paths, the canonical archive.
pub mod Canon
pub mod Runtimes
pub mod Versions
pub mod Declarations
pub mod Tree
pub mod Archive
mod Tests
pub mod Checks
