-- ===== src/Path/Print.antt =====
-- The path that `vfs_canonicalize_path` writes from the components.
use curls.Prelude.{ℕ, ◌+◌, ◌≤◌, ◌<◌, ◌≡◌, ◌⊎◌, Bool, true, ◌&&◌, ◌||◌, List, [], ◌∷◌, ◌++◌}
use curls.Prelude.Lists.{length}
use curls.Path.{slash, same_string, tokens}
use curls.Path.Clean.{is_name, all_names}

-- The names with a slash between each two.
abbrev pub joined : List (List ℕ) → List ℕ
joined [] = []
joined (c ∷ []) = c
joined (c ∷ d ∷ cs) = c ++ slash ∷ joined (d ∷ cs)

-- All but the last token are names, and the last is a name or empty.
abbrev pub ends_well : List (List ℕ) → Bool
ends_well [] = true
ends_well (t ∷ []) = is_name t || same_string t []
ends_well (t ∷ u ∷ ts) = is_name t && ends_well (u ∷ ts)

-- What the loop that writes adds to `dest`.
record Printed (dest : List ℕ) (cs : List (List ℕ)) (out : List ℕ) : Type 0 where
  rest : List ℕ
  added : out ≡ dest ++ rest
  good : ends_well (tokens [] rest) ≡ true
  few : length (tokens [] rest) ≤ 1 + length cs
  fits : length out < 512
  whole : (out ≡ dest ++ joined cs) ⊎ (511 ≤ length (dest ++ joined cs))

-- What a canonical path is, for the components that the code collects.
pub record Canonical (cs : List (List ℕ)) (out : List ℕ) : Type 0 where
  pub names : all_names cs ≡ true
  pub at_most : length cs ≤ 32
  pub rest : List ℕ
  pub absolute : out ≡ slash ∷ rest
  pub good : ends_well (tokens [] rest) ≡ true
  pub few : length (tokens [] rest) ≤ 33
  pub fits : length out < 512
  pub whole : (out ≡ slash ∷ joined cs) ⊎ (511 ≤ length (slash ∷ joined cs))
