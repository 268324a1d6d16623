-- ===== src/Members/Examples.antt =====
-- Runs and witnesses for the member names of tools/repack_darwin_archive.py.
use zynum.Prelude.{ℕ, ◌≡◌, ◌↔◌, refl, List, [], ◌∷◌, ok, err}
use zynum.Members.{member_names, unsafe_name, duplicate_name}
use zynum.Members.Accepted.{Passed, member_names_lem}

-- "a.o" and "b.o".
abbrev object_names : List (List ℕ)
object_names = (97 ∷ 46 ∷ 111 ∷ []) ∷ (98 ∷ 46 ∷ 111 ∷ []) ∷ []

members_run : member_names object_names ≡ ok object_names
unfolding member_names
members_run = refl

above_run : member_names ((46 ∷ 46 ∷ []) ∷ []) ≡ err (unsafe_name (46 ∷ 46 ∷ []))
unfolding member_names
above_run = refl

duplicate_run : member_names ((97 ∷ []) ∷ (97 ∷ []) ∷ []) ≡ err (duplicate_name (97 ∷ []))
unfolding member_names
duplicate_run = refl

member_names_lem_example : (member_names object_names ≡ ok object_names) ↔ Passed [] object_names
member_names_lem_example = member_names_lem object_names
