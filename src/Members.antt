-- ===== src/Members.antt =====
-- tools/repack_darwin_archive.py, `member_names`: which names of archive members may be extracted into
-- one flat directory. A name is the list of its code points; the listing comes split into lines.
pub mod Accepted
mod Examples
use native.Mathlib.Decide.{ℕ_discrete}
use zynum.Prelude.{
  ℕ, Bool, true, false, ◌||◌, Option, List, [], ◌∷◌, ◌==◌, if◌then◌else◌, same_list, Outcome, ok,
  err, ◌>>=◌,
}

-- `ValueError`, with the name.
pub data MemberError : Type 0 where
  unsafe_name : List ℕ → MemberError
  duplicate_name : List ℕ → MemberError

-- `/`, `\`, NUL, CR and tab.
abbrev pub is_forbidden : ℕ → Bool
is_forbidden c = c == 47 || (c == 92 || (c == 0 || (c == 13 || c == 9)))

abbrev pub any_forbidden : List ℕ → Bool
any_forbidden [] = false
any_forbidden (c ∷ cs) = is_forbidden c || any_forbidden cs

-- `-` or `@` at the start.
abbrev pub starts_as_option : List ℕ → Bool
starts_as_option [] = false
starts_as_option (c ∷ cs) = c == 45 || c == 64

abbrev pub is_unsafe : List ℕ → Bool
is_unsafe name =
    same_list name []
    || (same_list name (46 ∷ [])
        || (same_list name (46 ∷ 46 ∷ []) || (starts_as_option name || any_forbidden name)))

abbrev pub is_seen : List ℕ → List (List ℕ) → Bool
is_seen name [] = false
is_seen name (s ∷ seen) = same_list s name || is_seen name seen

unfoldable pub require_names : List (List ℕ) → List (List ℕ) → Outcome MemberError (Unit {0})
require_names seen [] = ok tt
require_names seen (name ∷ names) =
    let rest = require_names (name ∷ seen) names in
    if is_unsafe name
    then err (unsafe_name name)
    else if is_seen name seen
    then err (duplicate_name name)
    else rest

unfoldable pub member_names : List (List ℕ) → Outcome MemberError (List (List ℕ))
unfolding require_names
member_names names = require_names [] names >>= λ _. ok names
