-- ===== src/Path/Tests.antt =====
-- Paths at concrete inputs: "/a/../b" and the mount point "/u".
use curls.Prelude.{ℕ, ◌≡◌, refl, Bool, false, none, List, [], ◌∷◌, arith}
use curls.Prelude.Int.{pos}
use curls.Prelude.Lists.{length, replicate}
use curls.Path.{
  same_string, canonicalize, print, fill_buf, prefix, tokens, add_tokens, add_token, drop_last,
  print_from,
}
use curls.Path.Mount.{Mounts, register, umount, resolve, register-umount}

abbrev up_and_down_path : List ℕ
up_and_down_path = 47 ∷ 97 ∷ 47 ∷ 46 ∷ 46 ∷ 47 ∷ 98 ∷ []

-- "/a/../b" is "/b".
up_and_down : canonicalize none (47 ∷ 97 ∷ 47 ∷ 46 ∷ 46 ∷ 47 ∷ 98 ∷ []) ≡ 47 ∷ 98 ∷ []
unfolding canonicalize fill_buf prefix tokens add_tokens add_token drop_last same_string print
    print_from
up_and_down = refl

abbrev bare : Mounts
bare = record { fs_root = 9; table = [] }

canonical : canonicalize none (47 ∷ 117 ∷ []) ≡ 47 ∷ 117 ∷ []
unfolding canonicalize fill_buf prefix tokens add_tokens add_token drop_last same_string print
    print_from
canonical = refl

-- A file system without any file.
abbrev no_files : ℕ → List ℕ → ℕ
no_files node name = 0

abbrev none_freed : ℕ → Bool
none_freed node = false

abbrev mounted : Mounts
mounted = register (47 ∷ 117 ∷ []) 12 bare

register-umount_example :
    (resolve no_files none_freed none (47 ∷ 117 ∷ []) mounted ≡ (12, []))
    × ((umount none (47 ∷ 117 ∷ []) mounted).0 ≡ pos 0)
    × (resolve no_files none_freed none (47 ∷ 117 ∷ []) (umount none (47 ∷ 117 ∷ []) mounted).1
        ≡ resolve no_files none_freed none (47 ∷ 117 ∷ []) bare)
    × (length (umount none (47 ∷ 117 ∷ []) mounted).1.table ≡ 1)
unfolding same_string
register-umount_example =
    register-umount no_files none_freed none (47 ∷ 117 ∷ []) 12 bare (omega arith) (omega arith)
      refl canonical refl (omega arith)

abbrev all_left : Mounts
all_left = record {
  fs_root = 9;
  table = replicate 8 (record { path = 47 ∷ 118 ∷ []; root = 11; active = false });
}
