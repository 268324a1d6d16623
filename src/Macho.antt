-- ===== src/Macho.antt =====
-- tools/abi_artifact_parity.py, `_parse_macho_bytes`: the load commands, the tests of the regions of a
-- file, and the layout of an object.
pub mod Names
pub mod Sections
pub mod Regions
pub mod Layout
pub mod Kinds
pub mod Commands
pub mod Marks
pub mod Walk
pub mod Chain
pub mod Covered
pub mod Given
pub mod Filled
pub mod Loaded
pub mod Listing
pub mod Numbering
pub mod Align
pub mod Padded
pub mod Placed
pub mod Stack
pub mod Contents
pub mod Derived
pub mod Extents
pub mod Concrete
mod Examples
mod Runs
