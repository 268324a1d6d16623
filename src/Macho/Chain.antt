-- ===== src/Macho/Chain.antt =====
-- The load commands of a file for tools/abi_artifact_parity.py, and the fields of them that its claims
-- let differ.
use zynum.Prelude.{ℕ, ◌+◌, ◌*◌, ◌%◌, ◌≤◌, ◌<◌, ◌≡◌, ◌⊎◌, List, [], ◌∷◌, Option, some, String}
use zynum.Atoms.Finish.{slice}
use zynum.Parse.{field_le}
use zynum.Macho.Kinds.{LoadCommand, command_number}
use zynum.Macho.Sections.{MachoFile}
use zynum.Macho.Padded.{IsPadded}

-- Commands stand behind each other from the header on, each known, of a size that is a multiple of 8
-- and at least that, and within the end. The last one is the first of the numbers.
pub data AreCommands (bytes : List ℕ) (load_end : ℕ) : List ℕ → ℕ → Type 0 where
  no_command : AreCommands bytes load_end [] 32
  next_command :
      {seen : List ℕ} {offset : ℕ} (c : LoadCommand)
      → AreCommands bytes load_end seen offset
      → field_le bytes offset 4 ≡ command_number c
      → 8 ≤ field_le bytes (offset + 4) 4
      → field_le bytes (offset + 4) 4 % 8 ≡ 0
      → offset + field_le bytes (offset + 4) 4 ≤ load_end
      → AreCommands bytes load_end
          (field_le bytes offset 4 ∷ seen)
          (offset + field_le bytes (offset + 4) 4)

-- A command that stands at an offset behind others.
pub record IsCommand (bytes : List ℕ) (load_end o : ℕ) : Type 0 where
  pub seen : List ℕ
  pub chained : AreCommands bytes load_end seen o
  pub inside : o + field_le bytes (o + 4) 4 ≤ load_end

-- The number of a command, and the one at an offset.
abbrev pub HasNumber : MachoFile → ℕ → ℕ → Type 0
HasNumber m o number = field_le m.bytes o 4 ≡ number

-- One of so many bytes.
abbrev pub Spans : ℕ → ℕ → ℕ → Type 0
Spans start size i = (start ≤ i) × (i < start + size)

-- The k-th section of the segment command at an offset of an object, which has a place in the command.
pub record IsSectionAt (m : MachoFile) (o k base : ℕ) : Type 0 where
  pub segment : HasNumber m o 0x19
  pub object : m.filetype ≡ 1
  pub place : base ≡ o + 72 + 80 * k
  pub inside : 72 + 80 * (k + 1) ≤ field_le m.bytes (o + 4) 4

-- The byte is in a field of the command at the offset that follows from the path in the file.
pub data IsDerivedField (m : MachoFile) (o i : ℕ) : Type 0 where
  vmsize_field :
      HasNumber m o 0x19
      → (m.filetype ≡ 1) ⊎ IsPadded m.decode (slice m.bytes (o + 8) (o + 24)) "__LINKEDIT"
      → Spans (o + 32) 8 i
      → IsDerivedField m o i
  filesize_field :
      HasNumber m o 0x19
      → (m.filetype ≡ 1) ⊎ IsPadded m.decode (slice m.bytes (o + 8) (o + 24)) "__LINKEDIT"
      → Spans (o + 48) 8 i
      → IsDerivedField m o i
  -- The size of the line table.
  size_field :
      (k base : ℕ)
      → IsSectionAt m o k base
      → IsPadded m.decode (slice m.bytes base (base + 16)) "__debug_line"
      → IsPadded m.decode (slice m.bytes (base + 16) (base + 32)) "__DWARF"
      → Spans (base + 40) 8 i
      → IsDerivedField m o i
  -- The address of a zero-fill section.
  addr_field :
      (k base : ℕ)
      → IsSectionAt m o k base
      → (field_le m.bytes (base + 64) 4 % 256 ≡ 1) ⊎ (field_le m.bytes (base + 64) 4 % 256 ≡ 18)
      → Spans (base + 32) 8 i
      → IsDerivedField m o i
  -- The offset of relocations, if it is not zero.
  reloff_field :
      (k base : ℕ)
      → IsSectionAt m o k base
      → (field_le m.bytes (base + 56) 4 ≡ 0 → ⊥)
      → Spans (base + 56) 4 i
      → IsDerivedField m o i
  symtab_fields : HasNumber m o 0x2 → m.filetype ≡ 1 → Spans (o + 8) 16 i → IsDerivedField m o i
  strsize_field :
      HasNumber m o 0x2 → (m.filetype ≡ 1 → ⊥) → Spans (o + 20) 4 i → IsDerivedField m o i
  -- One of the six offsets of LC_DYSYMTAB, if it is not zero.
  dysymtab_field :
      (index : ℕ)
      → HasNumber m o 0xB
      → m.filetype ≡ 1
      → (6 ≤ index) × ((index ≤ 16) × (index % 2 ≡ 0))
      → (field_le m.bytes (o + 8 + index * 4) 4 ≡ 0 → ⊥)
      → Spans (o + 8 + index * 4) 4 i
      → IsDerivedField m o i
  signature_fields : HasNumber m o 0x1D → Spans (o + 8) 8 i → IsDerivedField m o i
  -- LC_FUNCTION_STARTS, LC_DATA_IN_CODE and LC_LINKER_OPTIMIZATION_HINT.
  linkedit_fields :
      HasNumber m o 0x26 ⊎ (HasNumber m o 0x29 ⊎ HasNumber m o 0x2E)
      → m.filetype ≡ 1
      → (field_le m.bytes (o + 12) 4 ≡ 0 → ⊥)
      → Spans (o + 8) 8 i
      → IsDerivedField m o i

-- What a byte of the command at an offset may be but invariant: derived in those fields, and an allowed
-- payload in the 16 bytes of a UUID.
abbrev pub IsLoose : MachoFile → ℕ → ℕ → Option String → Type 0
IsLoose m o i role =
    ((role ≡ some "derived_field") × IsDerivedField m o i)
    ⊎ ((role ≡ some "allowed_payload") × (HasNumber m o 0x1B × Spans (o + 8) 16 i))

-- A byte is invariant, or what it may be in some command.
abbrev pub IsGiven : MachoFile → ℕ → ℕ → Option String → Type 0
IsGiven m load_end i role =
    (role ≡ some "invariant") ⊎ ((o : ℕ) × IsCommand m.bytes load_end o × IsLoose m o i role)
