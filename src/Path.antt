-- ===== src/Path.antt =====
-- Paths and mounts of kernel/core/vfs_core.c: `vfs_canonicalize_path`, the split into parent and
-- base name, and the mount table. A string is the list of its characters without the final 0.
pub mod Clean
pub mod Print
pub mod Mount
mod Tests
use curls.Prelude.{
  ℕ, zero, suc, ◌+◌, ◌-◌, Bool, true, false, ◌&&◌, ◌||◌, Option, none, some, List, [], ◌∷◌, ◌++◌,
}
use curls.Prelude.Tests.{not, ltb, leb, ◌==◌, if◌then◌else◌}
use curls.Prelude.Lists.{length, take, drop, get_or}

abbrev pub slash : ℕ
slash = 47

abbrev pub dot : ℕ
dot = 46

-- `strcmp(a, b) == 0`
unfoldable pub same_string : List ℕ → List ℕ → Bool
same_string [] [] = true
same_string [] (y ∷ ys) = false
same_string (x ∷ xs) [] = false
same_string (x ∷ xs) (y ∷ ys) = (x == y) && same_string xs ys

-- The last character of the buffer, or 0 where the code reads in front of it.
abbrev pub last : List ℕ → ℕ
last xs = get_or xs (length xs - 1) 0

-- The start of `buf` for a path that is not absolute; no current task gives "/".
unfoldable pub prefix : Option (List ℕ) → List ℕ
prefix none = slash ∷ []
prefix (some cwd) =
    if last (take 511 cwd) == slash then take 511 cwd else take 511 cwd ++ slash ∷ []

-- `buf` after `src` is appended, as far as 511 characters go.
unfoldable pub fill_buf : Option (List ℕ) → List ℕ → List ℕ
unfolding prefix
fill_buf cwd src =
    let start = if get_or src 0 0 == slash then [] else prefix cwd in
    start ++ take (511 - length start) src

-- The tokens between slashes; the first argument is the token so far.
unfoldable pub tokens : List ℕ → List ℕ → List (List ℕ)
tokens token [] = token ∷ []
tokens token (c ∷ cs) = if c == slash then token ∷ tokens [] cs else tokens (token ++ c ∷ []) cs

abbrev pub skip_slash : List ℕ → List ℕ
skip_slash [] = []
skip_slash (c ∷ cs) = if c == slash then cs else c ∷ cs

-- `if (count > 0) count--;`
unfoldable pub drop_last : List (List ℕ) → List (List ℕ)
drop_last [] = []
drop_last (c ∷ []) = []
drop_last (c ∷ d ∷ cs) = c ∷ drop_last (d ∷ cs)

-- What one token does to `components`, of which there is room for 32.
unfoldable pub add_token : List (List ℕ) → List ℕ → List (List ℕ)
unfolding drop_last
add_token components token =
    if same_string token (dot ∷ dot ∷ [])
    then drop_last components
    else if same_string token (dot ∷ []) || same_string token []
    then components
    else if ltb (length components) 32
    then components ++ token ∷ []
    else components

unfoldable pub add_tokens : List (List ℕ) → List (List ℕ) → List (List ℕ)
unfolding add_token
add_tokens components [] = components
add_tokens components (token ∷ rest) = add_tokens (add_token components token) rest

-- The loop that writes `dest`, which has room for 512 characters with the final 0.
unfoldable pub print_from : List ℕ → List (List ℕ) → List ℕ
print_from dest [] = dest
print_from dest (c ∷ []) = if leb 512 (length dest + length c + 1) then dest else dest ++ c
print_from dest (c ∷ d ∷ cs) =
    let rest = print_from (dest ++ c ++ slash ∷ []) (d ∷ cs) in
    if leb 512 (length dest + length c + 1) then dest else rest

unfoldable pub print : List (List ℕ) → List ℕ
unfolding print_from
print components = print_from (slash ∷ []) components

-- `vfs_canonicalize_path`, with the directory of the current task if there is one. A NULL path is
-- treated as the empty one.
unfoldable pub canonicalize : Option (List ℕ) → List ℕ → List ℕ
unfolding fill_buf tokens add_tokens print
canonicalize cwd [] = slash ∷ []
canonicalize cwd (c ∷ cs) = print (add_tokens [] (tokens [] (skip_slash (fill_buf cwd (c ∷ cs)))))

-- The position after the last slash, if there is one; the number is the position so far.
pub after_last_slash : ℕ → List ℕ → Option ℕ
after_last_slash i [] = none
after_last_slash i (c ∷ cs) = elim (after_last_slash (i + 1) cs) [
  | some j ↦ some j
  | none ↦ if c == slash then some (i + 1) else none
]

abbrev pub from_option : Option ℕ → ℕ
from_option none = 0
from_option (some i) = i

-- `vfs_get_parent_path`
pub parent_path : Option (List ℕ) → List ℕ → List ℕ
unfolding canonicalize after_last_slash
parent_path cwd path =
    let clean = canonicalize cwd path in
    let cut = from_option (after_last_slash 0 clean) - 1 in
    if leb (length clean) 1 then slash ∷ [] else if cut == 0 then slash ∷ [] else take cut clean

-- `vfs_get_basename`
pub basename : Option (List ℕ) → List ℕ → List ℕ
unfolding canonicalize after_last_slash
basename cwd path =
    let clean = canonicalize cwd path in drop (from_option (after_last_slash 0 clean)) clean
