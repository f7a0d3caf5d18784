-- ===== src/Path/Mount.antt =====
-- The mount table: `kabi_vfs_register`, `sys_umount` and `vfs_resolve_path`.
use curls.Prelude.{
  ℕ, ◌+◌, ◌<◌, ◌≤◌, ◌≡◌, ◌≢◌, refl, sym, ap, ◌∙◌, Bool, true, false, ◌&&◌, ◌||◌, Option, none, some,
  List, [], ◌∷◌, ◌++◌, arith,
}
use curls.Prelude.Tests.{not, ltb, ◌==◌, if◌then◌else◌}
use curls.Prelude.Int.{ℤ, pos, minus_one}
use curls.Prelude.Lists.{length, length-append, drop, get_or}
use curls.Path.{slash, same_string, tokens, skip_slash, canonicalize}

-- `vfs_mount_t`; `path` has room for 127 characters, which theorems assume of the paths that are mounted.
pub record Mount : Type 0 where
  pub path : List ℕ
  pub root : ℕ
  pub active : Bool

-- `fs_root`, and `mount_table` as far as `num_mounts` goes.
pub record Mounts : Type 0 where
  pub fs_root : ℕ
  pub table : List Mount

abbrev pub max_mounts : ℕ
max_mounts = 8

-- `mount_table[i].active && strcmp(mount_table[i].path, path) == 0`
abbrev pub is_at : List ℕ → Mount → Bool
is_at path m = m.active && same_string m.path path

-- The first active mount at a path gets another root; none if there is no such mount.
pub replace : List ℕ → ℕ → List Mount → Option (List Mount)
replace path node [] = none
replace path node (m ∷ ms) =
    let rest = replace path node ms in
    if is_at path m
    then some (record m { root = node } ∷ ms)
    else elim rest [ none ↦ none | some ms' ↦ some (m ∷ ms') ]

pub replace_or_add : List ℕ → ℕ → List Mount → Option (List Mount) → List Mount
replace_or_add path node ms (some ms') = ms'
replace_or_add path node ms none =
    if ltb (length ms) max_mounts
    then ms ++ record { path = path; root = node; active = true } ∷ []
    else ms

-- `kabi_vfs_register` of the new node at a path.
pub register : List ℕ → ℕ → Mounts → Mounts
unfolding replace replace_or_add
register path node m =
    if same_string path (slash ∷ []) || (m.fs_root == 0)
    then record m { fs_root = node }
    else record m { table = replace_or_add path node m.table (replace path node m.table) }

-- The loop of `sys_umount`; none if there is no active mount at the path.
pub deactivate : List ℕ → List Mount → Option (List Mount)
deactivate path [] = none
deactivate path (m ∷ ms) =
    let rest = deactivate path ms in
    if is_at path m
    then some (record m { active = false } ∷ ms)
    else elim rest [ none ↦ none | some ms' ↦ some (m ∷ ms') ]

pub umounted : Mounts → Option (List Mount) → ℤ × Mounts
umounted m none = (minus_one, m)
umounted m (some ms) = (pos 0, record m { table = ms })

-- `sys_umount`
pub umount : Option (List ℕ) → List ℕ → Mounts → ℤ × Mounts
unfolding deactivate umounted
umount cwd path m = umounted m (deactivate (canonicalize cwd path) m.table)

abbrev pub starts_with : List ℕ → List ℕ → Bool
starts_with [] xs = true
starts_with (p ∷ ps) [] = false
starts_with (p ∷ ps) (x ∷ xs) = (p == x) && starts_with ps xs

-- `mlen > 0 && clean_path[mlen] == '/'` and the comparison of the prefix
abbrev pub is_below : List ℕ → Mount → Bool
is_below clean m =
    m.active
    && (ltb 0 (length m.path)
        && ((get_or clean (length m.path) 0 == slash) && starts_with m.path clean))

-- The loop over the mounts: the root of the first mount that has the path, and the rest of the path.
pub find_mount : List ℕ → List Mount → Option (ℕ × List ℕ)
find_mount clean [] = none
find_mount clean (m ∷ ms) =
    let rest = find_mount clean ms in
    if is_at clean m
    then some (m.root, [])
    else if is_below clean m
    then some (m.root, drop (length m.path + 1) clean)
    else rest

-- What the file systems do: the node below a node by name, or 0; and which nodes are transient.
module _ (finddir : ℕ → List ℕ → ℕ) (is_transient : ℕ → Bool) where
  -- The walk down a path by its tokens, with the transient nodes that are freed on the way.
  pub walk : ℕ → ℕ → List (List ℕ) → ℕ × List ℕ
  walk root current [] = (current, [])
  walk root current (token ∷ rest) =
      let next = finddir current token in
      let freed = if not (current == root) && is_transient current then current ∷ [] else [] in
      let down = walk root next rest in
      let stay = walk root current rest in
      if same_string token []
      then stay
      else if next == 0
      then (0, freed)
      else (down.0, freed ++ down.1)

  pub resolve_in : Mounts → List ℕ → Option (ℕ × List ℕ) → ℕ × List ℕ
  unfolding walk
  resolve_in m clean none = walk m.fs_root m.fs_root (tokens [] (skip_slash clean))
  resolve_in m clean (some (root, rest)) = walk root root (tokens [] rest)

  -- `vfs_resolve_path` of a path that is not NULL: the node or 0, and what is freed.
  pub resolve : Option (List ℕ) → List ℕ → Mounts → ℕ × List ℕ
  unfolding resolve_in find_mount
  resolve cwd path m =
      let clean = canonicalize cwd path in
      if m.fs_root == 0
      then (0, [])
      else if same_string clean (slash ∷ [])
      then (m.fs_root, [])
      else resolve_in m clean (find_mount clean m.table)

same_string_refl : (xs : List ℕ) → same_string xs xs ≡ true
unfolding same_string
same_string_refl [] = refl
same_string_refl (x ∷ xs) = ground (arith, same_string_refl xs)

-- A mount through which a path is resolved.
abbrev pub is_covered : List ℕ → List Mount → Bool
is_covered path [] = false
is_covered path (m ∷ ms) = is_at path m || (is_below path m || is_covered path ms)

module _ (path : List ℕ) (node : ℕ) where
  replace-none : (ms : List Mount) → is_covered path ms ≡ false → replace path node ms ≡ none
  unfolding replace
  replace-none [] h = refl
  replace-none (m ∷ ms) h =
      let off : is_at path m ≡ false = ground arith in
      let rest : is_covered path ms ≡ false = ground arith in rw (off, replace-none ms rest) refl

  -- The entry that `register` adds, or what `umount` leaves of it.
  abbrev entry : Bool → Mount
  entry on = record { path = path; root = node; active = on }

  find-end :
      (on : Bool) (ms : List Mount)
      → is_covered path ms ≡ false
      → find_mount path (ms ++ entry on ∷ []) ≡ find_mount path (entry on ∷ [])
  unfolding find_mount
  find-end on [] h = refl
  find-end on (m ∷ ms) h =
      let off : is_at path m ≡ false = ground arith in
      let above : is_below path m ≡ false = ground arith in
      let rest : is_covered path ms ≡ false = ground arith in rw (off, above) (find-end on ms rest)

  find-on : find_mount path (entry true ∷ []) ≡ some (node, [])
  unfolding find_mount
  find-on = rw (same_string_refl path) refl

  find-off : find_mount path (entry false ∷ []) ≡ none
  unfolding find_mount
  find-off = refl

  deactivate-end :
      (ms : List Mount)
      → is_covered path ms ≡ false
      → deactivate path (ms ++ entry true ∷ []) ≡ some (ms ++ entry false ∷ [])
  unfolding deactivate
  deactivate-end [] h = rw (same_string_refl path) refl
  deactivate-end (m ∷ ms) h =
      let off : is_at path m ≡ false = ground arith in
      let rest : is_covered path ms ≡ false = ground arith in rw (off, deactivate-end ms rest) refl

module _ (finddir : ℕ → List ℕ → ℕ) (is_transient : ℕ → Bool) where
  -- The end of the walk at the root of a mount.
  resolve_in_root :
      (m : Mounts) (clean : List ℕ) (node : ℕ)
      → resolve_in finddir is_transient m clean (some (node, [])) ≡ (node, [])
  unfolding resolve_in walk tokens same_string
  resolve_in_root m clean node = refl

  resolve-found :
      (cwd : Option (List ℕ)) (path : List ℕ) (m : Mounts)
      → m.fs_root ≢ 0
      → same_string path (slash ∷ []) ≡ false
      → canonicalize cwd path ≡ path
      → resolve finddir is_transient cwd path m
        ≡ resolve_in finddir is_transient m path (find_mount path m.table)
  unfolding resolve
  resolve-found cwd path m root sub clean =
      let there : (m.fs_root == 0) ≡ false = ground arith in rw (there, clean, sub) refl

  -- A path that no active mount covers is looked up in the root file system.
  find_mount-none :
      (path : List ℕ) (ms : List Mount) → is_covered path ms ≡ false → find_mount path ms ≡ none
  unfolding find_mount
  find_mount-none path [] h = refl
  find_mount-none path (x ∷ ms) h =
      let off : is_at path x ≡ false = ground arith in
      let above : is_below path x ≡ false = ground arith in
      let rest : is_covered path ms ≡ false = ground arith in
      rw (off, above) (find_mount-none path ms rest)

  -- Mounting and unmounting, with the root file system and any other file systems. A path of at most 127
  -- characters, which is canonical, not "/" and not covered by an active mount, with fewer than 8
  -- entries in the table: after `kabi_vfs_register` the path resolves to the new node, and nothing
  -- is freed; `sys_umount` of the path then gives 0, and afterwards the path resolves to what it was before
  -- the mount, but the entry stays in the table for ever.
  pub register-umount :
      (cwd : Option (List ℕ)) (path : List ℕ) (node : ℕ) (m : Mounts)
      → m.fs_root ≢ 0
      → length path < 128
      → same_string path (slash ∷ []) ≡ false
      → canonicalize cwd path ≡ path
      → is_covered path m.table ≡ false
      → length m.table < 8
      → (resolve finddir is_transient cwd path (register path node m) ≡ (node, []))
        × ((umount cwd path (register path node m)).0 ≡ pos 0)
        × (resolve finddir is_transient cwd path (umount cwd path (register path node m)).1
            ≡ resolve finddir is_transient cwd path m)
        × (length (umount cwd path (register path node m)).1.table ≡ length m.table + 1)
  unfolding register replace_or_add umount umounted resolve_in resolve
  register-umount cwd path node m root short sub clean free room =
      let there : (same_string path (slash ∷ []) || (m.fs_root == 0)) ≡ false = ground arith in
      let few : ltb (length m.table) max_mounts ≡ true = ground arith in
      let with_entry : Bool → Mounts =
        λ on. record m { table = m.table ++ entry path node on ∷ [] } in
      let mounted : register path node m ≡ with_entry true =
        rw (there, replace-none path node m.table free, few) refl in
      let unmounted : umount cwd path (with_entry true) ≡ (pos 0, with_entry false) =
        rw (clean, deactivate-end path node m.table free) refl in
      let on = find-end path node true m.table free ∙ find-on path node in
      let off = find-end path node false m.table free ∙ find-off path node in
      let before : resolve finddir is_transient cwd path m ≡ _ =
        resolve-found cwd path m root sub clean
        ∙ ap (resolve_in finddir is_transient m path) (find_mount-none path m.table free) in
      let after : resolve finddir is_transient cwd path (with_entry false) ≡ _ =
        resolve-found cwd path (with_entry false) root sub clean
        ∙ ap (resolve_in finddir is_transient (with_entry false) path) off in
      rw (mounted, unmounted)
        (
          resolve-found cwd path (with_entry true) root sub clean
              ∙ ap (resolve_in finddir is_transient (with_entry true) path) on
              ∙ resolve_in_root (with_entry true) path node,
          refl,
          after ∙ sym before,
          length-append m.table (entry path node false ∷ []),
        )

-- Entries are never taken back: with 8 of them, active or not, `kabi_vfs_register` at a path that
-- no active mount covers changes nothing, so the path resolves to no mount.
pub register_full :
    (path : List ℕ) (node : ℕ) (m : Mounts)
    → m.fs_root ≢ 0
    → same_string path (slash ∷ []) ≡ false
    → is_covered path m.table ≡ false
    → 8 ≤ length m.table
    → register path node m ≡ m
unfolding register replace_or_add
register_full path node m root sub free full =
    let there : (same_string path (slash ∷ []) || (m.fs_root == 0)) ≡ false = ground arith in
    let few : ltb (length m.table) max_mounts ≡ false = ground arith in
    rw (there, replace-none path node m.table free, few) refl
