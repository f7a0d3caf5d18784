-- ===== src/Vfs/Offset.antt =====
-- `read`, `write` and `seek` of vfs_core.c: the offset of an open file. What the read and write
-- functions of a node do to its medium is a parameter.
use curls.Prelude.{
  ℕ, ◌+◌, ◌-◌, ◌%◌, ◌^◌, ◌<◌, ◌≡◌, refl, sym, ap, ◌∙◌, subst, ◌≢◌, inl, inr, Bool, true, false,
  ◌&&◌, Option, none, some, List, [], arith,
}
use curls.Prelude.Tests.{ltb, leb, ◌==◌, if◌then◌else◌, Bool-cases, ==_refl}
use curls.Prelude.Int.{ℤ, pos, negsuc, minus_one, to_u64, to_int}
use curls.Prelude.Bits.{test_bit}
use curls.Prelude.Store.{update, update_self}
use curls.Task.{null}
use curls.Vfs.{File, Vfs, slot, lookup, index, dup}
use curls.Vfs.Refs.{Counted}
use curls.Vfs.Dup.{Attached, dup-Attached}

unfoldable pub set_offset : ℕ → ℕ → Vfs → Vfs
set_offset f o v = record v { files = update v.files f (record (v.files f) { offset = o }) }

-- The number that `seek` adds to, for a `whence` that it knows: SET 0, CUR 1, END 2.
unfoldable pub base : ℕ → ℕ → Vfs → Option ℕ
base f whence v =
    if whence == 0
    then some 0
    else if whence == 1
    then some (v.files f).offset
    else if whence == 2
    then some (v.nodes (v.files f).node).length
    else none

-- The bounds check of `seek` on a `uint64_t`, and the rest.
unfoldable pub seek_to : ℕ → ℕ → Vfs → ℤ × Vfs
unfolding set_offset
seek_to f new v = if leb (2 ^ 63) new then (minus_one, v) else (to_int new, set_offset f new v)

unfoldable pub seek_from : ℕ → ℤ → Option ℕ → Vfs → ℤ × Vfs
unfolding seek_to
seek_from f offset none v = (minus_one, v)
seek_from f offset (some b) v = seek_to f ((b + to_u64 offset) % 2 ^ 64) v

-- `seek`
unfoldable pub seek : ℤ → ℤ → ℕ → Vfs → ℤ × Vfs
unfolding base seek_from
seek fd offset whence v =
    let f = lookup fd v in
    if f == null then (minus_one, v) else seek_from f offset (base f whence v) v

-- The sum of a number and an integer, or none if it is negative.
abbrev pub plus : ℕ → ℤ → Option ℕ
plus b (pos n) = some (b + n)
plus b (negsuc n) = if ltb n b then some (b - n - 1) else none

abbrev pub int_range : ℤ → Bool
int_range (pos n) = ltb n (2 ^ 31)
int_range (negsuc n) = ltb n (2 ^ 31)

abbrev pub sought : ℕ → Vfs → Option ℕ → ℤ × Vfs
sought f v none = (minus_one, v)
sought f v (some o) = (to_int o, set_offset f o v)

-- From a base below 2 ^ 62, `seek` by an `int` moves to the exact sum of the two, and refuses with
-- -1 and no change when that sum is negative: the wrap-around of the 64-bit sum does no harm.
pub seek-sought :
    (fd offset : ℤ) (whence b : ℕ) (v : Vfs)
    → lookup fd v ≢ null
    → base (lookup fd v) whence v ≡ some b
    → b < 2 ^ 62
    → int_range offset ≡ true
    → seek fd offset whence v ≡ sought (lookup fd v) v (plus b offset)
unfolding seek seek_from seek_to
seek-sought fd (pos n) whence b v used e small r =
    let there : (lookup fd v == null) ≡ false = ground arith in
    let bound : n < 2 ^ 31 = ground arith in
    let sum : (b + n % 2 ^ 64) % 2 ^ 64 ≡ b + n = omega arith in
    let ok : leb (2 ^ 63) (b + n) ≡ false = ground arith in rw (there, e, sum, ok) refl
seek-sought fd (negsuc n) whence b v used e small r =
    let there : (lookup fd v == null) ≡ false = ground arith in
    let bound : n < 2 ^ 31 = ground arith in
    elim (Bool-cases (ltb n b)) [
      | inl lt ↦
          let sum : (b + (2 ^ 64 - 1 - n) % 2 ^ 64) % 2 ^ 64 ≡ b - n - 1 = ground arith in
          let ok : leb (2 ^ 63) (b - n - 1) ≡ false = ground arith in
          rw (there, e, lt, sum, ok) refl
      | inr ge ↦
          let bad : leb (2 ^ 63) ((b + (2 ^ 64 - 1 - n) % 2 ^ 64) % 2 ^ 64) ≡ true = ground arith in
          rw (there, e, ge, bad) refl
    ]

-- After `dup` the old and the new descriptor name one open file.
lookup_same :
    (v v' : Vfs) (oldfd : ℤ) (fd : ℕ)
    → Counted v
    → lookup oldfd v ≢ null
    → (fd < 32)
    → slot fd v ≡ null
    → Attached v fd (lookup oldfd v) v'
    → lookup (pos fd) v' ≡ lookup oldfd v'
lookup_same v v' (negsuc n) fd c n0 h e a = absurd (n0 refl)
lookup_same v v' (pos n) fd c n0 h e a =
    let small : ltb n 32 ≡ true = ground arith in
    let here : ltb fd 32 ≡ true = ground arith in
    let old : lookup (pos n) v ≡ slot n v = rw small refl in
    let other : (n == fd) ≡ false = elim (Bool-cases (n == fd)) [
      | inl same ↦ let m : n ≡ fd = ground arith in absurd (n0 (old ∙ ap (λ k. slot k v) m ∙ e))
      | inr ne ↦ ne
    ] in
    let new_slot : slot fd v' ≡ lookup (pos n) v = a.slots_of fd ∙ rw (==_refl fd) refl in
    let old_slot : slot n v' ≡ slot n v = a.slots_of n ∙ rw other refl in
    let new : lookup (pos fd) v' ≡ slot fd v' = rw here refl in
    let old' : lookup (pos n) v' ≡ slot n v' = rw small refl in
    new ∙ new_slot ∙ old ∙ sym old_slot ∙ sym old'

dup-lookup :
    (v v' : Vfs) (oldfd : ℤ) (fd : ℕ)
    → Counted v
    → dup oldfd v ≡ (pos fd, v')
    → lookup (pos fd) v' ≡ lookup oldfd v'
dup-lookup v v' oldfd fd c ran = elim (dup-Attached v oldfd c) [
  | inl (refused, _) ↦
      let bad : minus_one ≡ pos fd = ap (λ (r : ℤ × Vfs). r.0) (sym refused ∙ ran) in
      absurd (ground arith)
  | inr (fd', w, ran', small, used, l, a) ↦
      let same : (pos fd', w) ≡ (pos fd, v') = sym ran' ∙ ran in
      let fds : fd' ≡ fd = ap (λ (r : ℤ × Vfs). index r.0) same in
      let worlds : w ≡ v' = ap (λ (r : ℤ × Vfs). r.1) same in
      subst (λ g. lookup (pos g) v' ≡ lookup oldfd v') fds
        (subst (λ u. lookup (pos fd') u ≡ lookup oldfd u) worlds
          (lookup_same v w oldfd fd' c used small l.free a))
]

-- The functions of the nodes: bytes read or taken, and the medium afterwards.
module _ (M : Type 0) (on_read : ℕ → Option (ℕ → ℕ → M → ℕ × List ℕ × M))
    (on_write : ℕ → Option (ℕ → ℕ → List ℕ → M → ℕ × M)) where
  pub read_with : Option (ℕ → ℕ → M → ℕ × List ℕ × M) → ℕ → ℕ → M → ℕ × List ℕ × M
  read_with none offset size m = (0, [], m)
  read_with (some r) offset size m = r offset size m

  -- `read_fs`
  pub read_fs : ℕ → ℕ → ℕ → M → ℕ × List ℕ × M
  unfolding read_with
  read_fs node offset size m =
      if node == null then (0, [], m) else read_with (on_read node) offset size m

  pub write_with : Option (ℕ → ℕ → List ℕ → M → ℕ × M) → ℕ → ℕ → List ℕ → M → ℕ × M
  write_with none offset size bytes m = (0, m)
  write_with (some w) offset size bytes m = w offset size bytes m

  -- `write_fs`
  pub write_fs : ℕ → ℕ → ℕ → List ℕ → M → ℕ × M
  unfolding write_with
  write_fs node offset size bytes m =
      if node == null then (0, m) else write_with (on_write node) offset size bytes m

  -- `f->offset += res;`
  pub advance : ℕ → ℕ → Vfs → Vfs
  unfolding set_offset
  advance f n v = set_offset f (((v.files f).offset + n) % 2 ^ 64) v

  -- `read`
  pub read : ℤ → ℤ → Vfs → M → ℤ × List ℕ × Vfs × M
  unfolding read_fs advance
  read fd size v m =
      let f = lookup fd v in
      let got = read_fs (v.files f).node (v.files f).offset (to_u64 size) m in
      if f == null
      then (minus_one, [], v, m)
      else if (v.files f).flags == 1
      then (minus_one, [], v, m)
      else (to_int got.0, got.1, advance f got.0 v, got.2)

  -- What `write` counts as written: all of it for a file opened with O_CREAT whose node took nothing.
  pub taken : ℕ → ℤ → ℕ → ℕ
  taken flags (negsuc k) res = res
  taken flags (pos k) res =
      if (res == 0) && (ltb 0 k && test_bit flags 6) then to_u64 (pos k) else res

  -- `write`
  pub write : ℤ → List ℕ → ℤ → Vfs → M → ℤ × Vfs × M
  unfolding write_fs taken advance
  write fd bytes size v m =
      let f = lookup fd v in
      let put = write_fs (v.files f).node (v.files f).offset (to_u64 size) bytes m in
      let res = taken (v.files f).flags size put.0 in
      if f == null
      then (minus_one, v, m)
      else if (v.files f).flags == 0
      then (minus_one, v, m)
      else (to_int res, advance f res v, put.1)

  -- A read at an offset, by a node's function.
  abbrev pub bytes_at : File → ℤ → ℕ → M → ℕ × List ℕ × M
  bytes_at f size offset m = read_fs f.node offset (to_u64 size) m

  -- The next read of the open file `f`, after `n` bytes were read and the medium is `m`, goes on where that read
  -- ended, and moves the offset by what it gives.
  pub record GoesOn (f : ℕ) (size : ℤ) (v : Vfs) (n : ℕ) (m : M) (r : ℤ × List ℕ × Vfs × M)
      : Type 0 where
    pub result : r.0 ≡ to_int (bytes_at (v.files f) size (((v.files f).offset + n) % 2 ^ 64) m).0
    pub bytes : r.1 ≡ (bytes_at (v.files f) size (((v.files f).offset + n) % 2 ^ 64) m).1
    pub offset :
        (r.2.files f).offset
        ≡ (((v.files f).offset + n) % 2 ^ 64
            + (bytes_at (v.files f) size (((v.files f).offset + n) % 2 ^ 64) m).0)
          % 2 ^ 64
    pub medium : r.3 ≡ (bytes_at (v.files f) size (((v.files f).offset + n) % 2 ^ 64) m).2

  files-advance :
      (f n : ℕ) (v : Vfs)
      → (advance f n v).files f ≡ record (v.files f) { offset = ((v.files f).offset + n) % 2 ^ 64 }
  unfolding advance set_offset
  files-advance f n v = update_self v.files f _

  lookup-advance : (fd f n : ℕ) (v : Vfs) → lookup (pos fd) (advance f n v) ≡ lookup (pos fd) v
  unfolding advance set_offset
  lookup-advance fd f n v = refl

  -- What a read through `fd` of the open file `f` gives and leaves.
  abbrev read_result : ℕ → ℤ → Vfs → M → ℤ × List ℕ × Vfs × M
  read_result f size v m =
      let got = bytes_at (v.files f) size (v.files f).offset m in
      (to_int got.0, got.1, advance f got.0 v, got.2)

  read_open :
      (fd : ℤ) (f : ℕ) (size : ℤ) (v : Vfs) (m : M)
      → lookup fd v ≡ f
      → f ≢ null
      → (v.files f).flags ≢ 1
      → read fd size v m ≡ read_result f size v m
  unfolding read
  read_open fd f size v m e used readable =
      let open_file : (f == null) ≡ false = ground arith in
      let mode : ((v.files f).flags == 1) ≡ false = ground arith in rw (e, open_file, mode) refl

  goes_on :
      (f : ℕ) (size : ℤ) (v : Vfs) (n : ℕ) (m : M)
      → GoesOn f size v n m (read_result f size (advance f n v) m)
  goes_on f size v n m =
      let moved = files-advance f n v in
      record {
        result = ap (λ (x : File). to_int (bytes_at x size x.offset m).0) moved;
        bytes = ap (λ (x : File). (bytes_at x size x.offset m).1) moved;
        offset =
            ap (λ (x : File). x.offset)
              (files-advance f (bytes_at ((advance f n v).files f) size _ m).0 (advance f n v))
            ∙ ap (λ (x : File). (x.offset + (bytes_at x size x.offset m).0) % 2 ^ 64) moved;
        medium = ap (λ (x : File). (bytes_at x size x.offset m).2) moved;
      }

  -- After `dup` has given a new descriptor of a file that may be read, a read through the old one and then
  -- a read through the new one: the second starts at the offset at which the first ended, and the
  -- offset of the file is then behind the bytes of both, modulo 2 ^ 64.
  pub dup_shares :
      (v v' : Vfs) (oldfd : ℤ) (fd : ℕ) (size size' : ℤ) (m : M)
      → Counted v
      → dup oldfd v ≡ (pos fd, v')
      → lookup oldfd v' ≢ null
      → (v'.files (lookup oldfd v')).flags ≢ 1
      → GoesOn
          (lookup oldfd v')
          size'
          v'
          (bytes_at (v'.files (lookup oldfd v')) size (v'.files (lookup oldfd v')).offset m).0
          (bytes_at (v'.files (lookup oldfd v')) size (v'.files (lookup oldfd v')).offset m).2
          (read (pos fd) size' (read oldfd size v' m).2 (read oldfd size v' m).3)
  dup_shares v v' oldfd fd size size' m c ran used readable =
      let f : ℕ = lookup oldfd v' in
      let first = bytes_at (v'.files f) size (v'.files f).offset m in
      let moved = files-advance f first.0 v' in
      let mode : ((advance f first.0 v').files f).flags ≢ 1 =
        λ z. readable (sym (ap (λ (x : File). x.flags) moved) ∙ z) in
      subst
        (λ (r : ℤ × List ℕ × Vfs × M).
          GoesOn f size' v' first.0 first.2 (read (pos fd) size' r.2 r.3))
        (sym (read_open oldfd f size v' m refl used readable))
        (subst (GoesOn f size' v' first.0 first.2)
          (sym (
            read_open (pos fd) f size' (advance f first.0 v') first.2
              (lookup-advance fd f first.0 v' ∙ dup-lookup v v' oldfd fd c ran) used mode))
          (goes_on f size' v' first.0 first.2))
