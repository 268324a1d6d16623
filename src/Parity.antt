-- ===== src/Parity.antt =====
-- tools/abi_artifact_parity.py, from `canonicalize_atoms` on: the comparison of two artifacts that
-- were read, and `bind_provenance`.
pub mod Axes
pub mod Records
pub mod Pairing
pub mod Evidence
pub mod Symbols
pub mod Compare
pub mod Agreed
pub mod Verdict
pub mod Silent
pub mod Complete
pub mod Provenance
pub mod Bound
mod Examples
