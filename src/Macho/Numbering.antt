-- ===== src/Macho/Numbering.antt =====
-- The sections that the load commands of tools/abi_artifact_parity.py list.
use zynum.Prelude.{ℕ, ◌≡◌, subst, ok-value, Outcome, ok}
use zynum.Parse.{ParseError}
use zynum.Macho.Sections.{Section, Segment, MachoFile}
use zynum.Macho.Commands.{LoadState}
use zynum.Macho.Listing.{AreNumbered, sections_of, AreListed}

-- What a state lists up to an offset.
abbrev Lists : MachoFile → ℕ → LoadState → Type 0
Lists m o s = AreListed m o s.segments s.sections

-- What a command leaves alone.
numbered :
    (m : MachoFile) (o : ℕ) (t s' : LoadState)
    → Lists m o t
    → ◌≡◌ {A = Outcome ParseError LoadState} (ok t) (ok s')
    → Lists m o s'
numbered m o t s' n h = subst (λ t. Lists m o t) (ok-value h) n

-- What the state lists at the end of the commands.
pub record IsNumbered (m : MachoFile) (load_end : ℕ) (s : LoadState) : Type 0 where
  pub listed : AreListed m load_end s.segments s.sections
  pub segments_numbered : AreNumbered (λ (x : Segment). x.index) 0 s.segments
  pub sections_numbered : AreNumbered (λ (x : Section). x.index) 1 s.sections
  pub sections_eq : s.sections ≡ sections_of s.segments
