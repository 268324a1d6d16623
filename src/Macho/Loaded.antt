-- ===== src/Macho/Loaded.antt =====
-- The load commands that `_parse_macho_bytes` of tools/abi_artifact_parity.py accepts.
use zynum.Prelude.{ℕ, ◌+◌, ◌≤◌, ◌<◌, ◌≡◌, List, length}
use zynum.Atoms.{AtomBuilder}
use zynum.Atoms.Commit.{IsValid}
use zynum.Atoms.Claims.{role_at}
use zynum.Parse.{field_le}
use zynum.Macho.Kinds.{lc_symtab, lc_dysymtab, lc_build_version, command_number}
use zynum.Macho.Sections.{MachoFile}
use zynum.Macho.Walk.{occurrences}
use zynum.Macho.Chain.{AreCommands, IsGiven}
use zynum.Macho.Covered.{Covers}

record IsWalked (m : MachoFile) (load_end ncmds end : ℕ) (before seen : List ℕ) (b : AtomBuilder)
    : Type 0 where
  covers : Covers m load_end end load_end b
  commands : AreCommands m.bytes load_end seen end
  count_eq : length seen ≡ length before + ncmds

-- What the load commands are, and what is claimed of the file behind them.
pub record IsLoaded (m : MachoFile) (load_end : ℕ) (seen : List ℕ) (b : AtomBuilder) : Type 0 where
  pub valid : IsValid b
  pub roles : (i : ℕ) → i < length m.bytes → IsGiven m load_end i (role_at b i)
  pub inside : load_end ≤ length m.bytes
  pub commands : AreCommands m.bytes load_end seen load_end
  pub count_eq : length seen ≡ field_le m.bytes 16 4
  pub one_symtab : occurrences (command_number lc_symtab) seen ≡ 1
  pub one_dysymtab : occurrences (command_number lc_dysymtab) seen ≡ 1
  pub one_build_version : occurrences (command_number lc_build_version) seen ≡ 1
