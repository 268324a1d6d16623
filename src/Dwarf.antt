-- ===== src/Dwarf.antt =====
-- tools/abi_artifact_parity.py, `parse_dwarf_v4_debug_line`: the line tables of an object, the one
-- directory of the global cache among them, and its claim.
pub mod Cache
pub mod Tables
pub mod Lines
pub mod Rows
pub mod Ends
pub mod Accepted
pub mod Claims
mod Examples
