-- ===== src/Archive.antt =====
-- tools/abi_artifact_parity.py, `parse_ranlib` and the first half of `parse_static_archive`, up to the
-- members' objects: the members of a Darwin archive, its index, and the claims of their bytes.
pub mod Table
pub mod Layout
pub mod Reader
pub mod Ranlib
pub mod Walk
pub mod Ends
pub mod Opening
mod Examples
