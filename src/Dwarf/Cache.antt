-- ===== src/Dwarf/Cache.antt =====
-- tools/abi_artifact_parity.py, `GLOBAL_CACHE_DIR_RE`: an absolute path whose last three parts are
-- global-cache, b and 32 hexadecimal digits. A part before them is not empty and has no NUL.
use Prim.Native.Char.{Char, code}
use Prim.Native.String.{[] as empty_text, ◌∷◌ as ◌∷ₜ◌}
use zynum.Prelude.{
  String, Bool, false, ◌||◌, ◌&&◌, not, List, [], ◌∷◌, ◌==◌, if◌then◌else◌, same, string_eq,
}
use zynum.Parity.Provenance.{is_lower_hex}

abbrev prepend : Char → List String → List String
prepend c [] = (c ∷ₜ empty_text) ∷ []
prepend c (part ∷ parts) = (c ∷ₜ part) ∷ parts

-- `text.split("/")`.
abbrev pub split_slash : String → List String
split_slash empty_text = empty_text ∷ []
split_slash (c ∷ₜ text) =
    let rest = split_slash text in if code c == 47 then empty_text ∷ rest else prepend c rest

abbrev pub has_nul : String → Bool
has_nul empty_text = false
has_nul (c ∷ₜ text) = code c == 0 || has_nul text

abbrev pub is_cache_entry : List String → Bool
is_cache_entry (cache ∷ b ∷ digest ∷ []) =
    same cache "global-cache" && (same b "b" && is_lower_hex 32 digest)
is_cache_entry parts = false

abbrev pub is_cache_tail : List String → Bool
is_cache_tail [] = false
is_cache_tail (part ∷ parts) =
    is_cache_entry (part ∷ parts)
    || (not (same part "") && (not (has_nul part) && is_cache_tail parts))

abbrev pub is_absolute : List String → Bool
is_absolute [] = false
is_absolute (root ∷ parts) = same root "" && is_cache_tail parts

-- `GLOBAL_CACHE_DIR_RE.fullmatch` on a path.
unfoldable pub is_cache_directory : String → Bool
is_cache_directory path = is_absolute (split_slash path)
