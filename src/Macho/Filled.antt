-- ===== src/Macho/Filled.antt =====
-- The claims of the load commands in tools/abi_artifact_parity.py, taken together.
use zynum.Prelude.{
  ◌⊎◌, ◌&&◌, not, ◌==◌, ◌≤◌, ◌%◌, ◌+◌, All, refl, List, [], ◌∷◌, ◌≡◌, inl, inr, ℕ, ◌+◌, ◌≡◌, refl,
  subst, inl, inr, String, true, not, some, some-value, List, [], ◌∷◌, if-cases, ◌==◌, ==→eq,
  ok-value, Outcome, ok, arith,
}
use zynum.Atoms.{AtomBuilder}
use zynum.Parse.{ParseError}
use zynum.Parse.Guards.{of_atom-ok}
use zynum.Parse.{field_le}
use zynum.Macho.Kinds.{
  LoadCommand, lc_segment_64, lc_symtab, lc_dysymtab, lc_load_dylib, lc_id_dylib, lc_load_dylinker,
  lc_prebound_dylib, lc_load_weak_dylib, lc_reexport_dylib, lc_lazy_load_dylib,
  lc_load_upward_dylib, lc_uuid, lc_code_signature, lc_dyld_info_only, lc_function_starts,
  lc_source_version, lc_data_in_code, lc_linker_optimization_hint, lc_build_version, lc_rpath,
  command_number, command_in,
}
use zynum.Macho.Sections.{MachoFile, is_object}
use zynum.Macho.Commands.{Command, LoadState, read_command}
use zynum.Macho.Marks.{uuid_claim, claim_layout, claim_command}
use zynum.Macho.Chain.{
  IsCommand, HasNumber, symtab_fields, strsize_field, signature_fields, linkedit_fields,
}
use zynum.Macho.Covered.{Covers, add-Covers, derived-Covers, claim_offsets-Covers}
use zynum.Macho.Given.{claim_last-Covers}

pub command_in-eq :
    (commands : List LoadCommand) (number : ℕ) (c : LoadCommand)
    → command_in commands number ≡ some c
    → command_number c ≡ number
command_in-eq [] number c h = absurd (cc h)
command_in-eq (d ∷ commands) number c h = elim (if-cases (command_number d == number) _ _ h) [
  | inl (e, h) ↦ subst (λ d. command_number d ≡ number) (some-value h) (==→eq _ _ e)
  | inr (_, h) ↦ command_in-eq commands number c h
]

module _ (m : MachoFile) (load_end low high : ℕ) where
  claim_layout-Covers :
      (dependency : String) (b b' : AtomBuilder) (c : Command)
      → IsCommand m.bytes load_end c.offset
      → HasNumber m c.offset 0x26 ⊎ (HasNumber m c.offset 0x29 ⊎ HasNumber m c.offset 0x2E)
      → Covers m load_end low high b
      → claim_layout m dependency b c ≡ ok b'
      → Covers m load_end low high b'
  unfolding claim_layout
  claim_layout-Covers dependency b b' c at n k h =
      derived-Covers m load_end low high c.offset
        (is_object m && not (field_le m.bytes (c.offset + 12) 4 == 0)) b b' _ _ _ _ at
        (λ t i span. linkedit_fields n (ground (arith, t)) (λ e. ground (arith, t, e)) span) k h

  unclaimed :
      (b b' : AtomBuilder)
      → Covers m load_end low high b
      → ◌≡◌ {A = Outcome ParseError AtomBuilder} (ok b) (ok b')
      → Covers m load_end low high b'
  unclaimed b b' k h = subst (λ b. Covers m load_end low high b) (ok-value h) k

  -- The claims within a command that was read keep what is covered.
  pub claim_command-Covers :
      (command : LoadCommand) (dependency : String) (b b' : AtomBuilder) (c : Command)
      (s s' : LoadState)
      → IsCommand m.bytes load_end c.offset
      → HasNumber m c.offset (command_number command)
      → c.size ≡ field_le m.bytes (c.offset + 4) 4
      → read_command command m c s ≡ ok s'
      → Covers m load_end low high b
      → claim_command command m dependency b c s' ≡ ok b'
      → Covers m load_end low high b'
  unfolding claim_command
  claim_command-Covers lc_segment_64 dependency b b' c s s' at n size read k h =
      claim_last-Covers m load_end low high dependency b b' c s s' at n size read k h
  claim_command-Covers lc_symtab dependency b b' c s s' at n size read k h =
      elim (if-cases (is_object m) _ _ h) [
        | inl (t, h) ↦
            derived-Covers m load_end low high c.offset true b b' _ _ _ _ at
              (λ _ i span. symtab_fields n (ground (arith, t)) span) k h
        | inr (t, h) ↦
            derived-Covers m load_end low high c.offset true b b' _ _ _ _ at
              (λ _ i span. strsize_field n (λ e. ground (arith, t, e)) span) k h
      ]
  claim_command-Covers lc_dysymtab dependency b b' c s s' at n size read k h =
      elim (if-cases (is_object m) _ _ h) [
        | inl (t, h) ↦
            claim_offsets-Covers m load_end low high dependency b b' c
              (6 ∷ 8 ∷ 10 ∷ 12 ∷ 14 ∷ 16 ∷ []) at n (ground (arith, t)) six_offsets k h
        | inr (_, h) ↦ unclaimed b b' k h
      ]
    where
      six_offsets : All (λ j. (6 ≤ j) × ((j ≤ 16) × (j % 2 ≡ 0))) (6 ∷ 8 ∷ 10 ∷ 12 ∷ 14 ∷ 16 ∷ [])
      six_offsets = (
        (omega arith, (omega arith, refl)),
        (
          (omega arith, (omega arith, refl)),
          (
            (omega arith, (omega arith, refl)),
            (
              (omega arith, (omega arith, refl)),
              ((omega arith, (omega arith, refl)), ((omega arith, (omega arith, refl)), tt)),
            ),
          ),
        ),
      )
  claim_command-Covers lc_uuid dependency b b' c s s' at n size read k h =
      add-Covers m load_end low high low high b b' (c.offset + 8) 16 uuid_claim true k
        (of_atom-ok _ h) (λ i l r. inr (c.offset, at, inr (refl, (n, (l, r))))) (λ i out. inl out)
  claim_command-Covers lc_code_signature dependency b b' c s s' at n size read k h =
      derived-Covers m load_end low high c.offset true b b' _ _ _ _ at
        (λ _ i span. signature_fields n span) k h
  claim_command-Covers lc_function_starts dependency b b' c s s' at n size read k h =
      claim_layout-Covers dependency b b' c at (inl n) k h
  claim_command-Covers lc_data_in_code dependency b b' c s s' at n size read k h =
      claim_layout-Covers dependency b b' c at (inr (inl n)) k h
  claim_command-Covers lc_linker_optimization_hint dependency b b' c s s' at n size read k h =
      claim_layout-Covers dependency b b' c at (inr (inr n)) k h
  claim_command-Covers lc_load_dylib dependency b b' c s s' at n size read k h = unclaimed b b' k h
  claim_command-Covers lc_id_dylib dependency b b' c s s' at n size read k h = unclaimed b b' k h
  claim_command-Covers lc_load_dylinker dependency b b' c s s' at n size read k h =
      unclaimed b b' k h
  claim_command-Covers lc_prebound_dylib dependency b b' c s s' at n size read k h =
      unclaimed b b' k h
  claim_command-Covers lc_load_weak_dylib dependency b b' c s s' at n size read k h =
      unclaimed b b' k h
  claim_command-Covers lc_reexport_dylib dependency b b' c s s' at n size read k h =
      unclaimed b b' k h
  claim_command-Covers lc_lazy_load_dylib dependency b b' c s s' at n size read k h =
      unclaimed b b' k h
  claim_command-Covers lc_load_upward_dylib dependency b b' c s s' at n size read k h =
      unclaimed b b' k h
  claim_command-Covers lc_dyld_info_only dependency b b' c s s' at n size read k h =
      unclaimed b b' k h
  claim_command-Covers lc_source_version dependency b b' c s s' at n size read k h =
      unclaimed b b' k h
  claim_command-Covers lc_build_version dependency b b' c s s' at n size read k h =
      unclaimed b b' k h
  claim_command-Covers lc_rpath dependency b b' c s s' at n size read k h = unclaimed b b' k h
