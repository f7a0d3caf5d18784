-- ===== src/Pipe/Inv.antt =====
-- The representation invariant of `pipe_t`, and that every operation keeps it.
use native.Mathlib.Nat.{mod-eq_of_lt, mod_self}
use native.Mathlib.Decide.{dec_lt}
use curls.Prelude.{
  ℕ, zero, suc, ◌+◌, ◌%◌, ◌^◌, ◌≤◌, ◌<◌, ◌≡◌, ◌≢◌, ◌⊎◌, inl, inr, true, ◌&&◌, Option, none, some,
  List, [], ◌∷◌, subst, arith,
}
use curls.Prelude.Tests.{ltb, ◌==◌, Bool-cases}
use curls.Prelude.Lists.{length, length-set}
use curls.Pipe.{
  Pipe, World, inc32, create, take_byte, drain, put_byte, fill, write, must_wait, block, unblock,
  read_now, read, remove_reader, remove_writer,
}

-- `i` is the slot that lies `n` steps after `at` in a ring of `size` slots.
abbrev pub Ahead : ℕ → ℕ → ℕ → ℕ → Type 0
Ahead size at n i = (i < size) × ((i ≡ at + n) ⊎ (i + size ≡ at + n))

pub record IsValid (p : Pipe) : Type 0 where
  pub storage : p.size ≤ length p.buffer
  pub positive : 0 < p.size
  pub word : p.size < 2 ^ 32
  pub tail_in : p.tail < p.size
  pub len_in : p.len ≤ p.size
  pub head_at : Ahead p.size p.tail p.len p.head

-- The slot after `x`.
pub next_slot :
    (size x : ℕ)
    → size < 2 ^ 32
    → x < size
    → (x + 1 < size) × (inc32 x % size ≡ x + 1) ⊎ (x + 1 ≡ size) × (inc32 x % size ≡ 0)
next_slot size x w h =
    let small : inc32 x ≡ x + 1 = omega arith in
    elim (dec_lt (x + 1) size) [
      | yes p ↦ inl (p, rw small (mod-eq_of_lt p))
      | no p ↦ let e : x + 1 ≡ size = omega arith in inr (e, rw (small, e) (mod_self size))
    ]

-- A pipe from `pipe_create` is valid and empty, if the buffer has `size` bytes.
pub create-IsValid :
    (storage : List ℕ) (size count : ℕ) {p : Pipe} {c : ℕ}
    → size ≤ length storage
    → 0 < size
    → size < 2 ^ 32
    → create true (some storage) size count ≡ (some p, c)
    → IsValid p × (p.len ≡ 0) × (c ≡ inc32 count)
unfolding create
create-IsValid storage size count h pos w e = grind arith

pub take_byte-IsValid : {p : Pipe} → IsValid p → p.len ≢ 0 → IsValid (take_byte p)
unfolding take_byte
take_byte-IsValid {p} v ne = omega (arith, next_slot p.size p.tail v.word v.tail_in)

pub put_byte-IsValid : {p : Pipe} (b : ℕ) → IsValid p → p.len < p.size → IsValid (put_byte p b)
unfolding put_byte
put_byte-IsValid {p} b v room =
    omega (arith, next_slot p.size p.head v.word v.head_at.0, length-set p.buffer p.head b)

pub drain-IsValid : (k : ℕ) {p : Pipe} → IsValid p → IsValid (drain k p).1
unfolding drain
drain-IsValid zero v = v
drain-IsValid (suc k) {p} v = elim (Bool-cases (p.len == 0)) [
  | inl e ↦ rw e v
  | inr e ↦ rw e (drain-IsValid k (take_byte-IsValid v (ground arith)))
]

pub fill-IsValid : (bs : List ℕ) {p : Pipe} → IsValid p → IsValid (fill bs p).1
unfolding fill
fill-IsValid [] v = v
fill-IsValid (b ∷ bs) {p} v = elim (Bool-cases (ltb p.len p.size)) [
  | inl e ↦ rw e (fill-IsValid bs (put_byte-IsValid b v (ground arith)))
  | inr e ↦ rw e v
]

-- `pipe_write` keeps the invariant, whatever it returns.
pub write-IsValid : (bytes : List ℕ) (w : World) → IsValid w.pipe → IsValid (write bytes w).1.pipe
unfolding write
write-IsValid bytes w v = elim (Bool-cases (w.pipe.readers == 0)) [
  | inl e ↦ rw e v
  | inr e ↦ rw e (elim (Bool-cases (w.pipe.size == 0)) [
    | inl z ↦ rw z v
    | inr z ↦ rw z (fill-IsValid bytes v)
  ])
]

-- The copying part of `pipe_read` keeps the invariant.
pub read_now-IsValid : (size : ℕ) (w : World) → IsValid w.pipe → IsValid (read_now size w).1.pipe
unfolding read_now
read_now-IsValid size w v = elim (Bool-cases ((w.pipe.len == 0) && (w.pipe.writers == 0))) [
  | inl e ↦ rw e v
  | inr e ↦ rw e (drain-IsValid size v)
]

-- What other tasks do while a reader is halted keeps the pipe valid.
abbrev pub Keeps : List (World → World) → Type 0
Keeps [] = Unit
Keeps (env ∷ envs) = ((w : World) → IsValid w.pipe → IsValid (env w).pipe) × Keeps envs

IsValid-of_eq :
    (size : ℕ) (w : World) {out : List ℕ} {w' : World}
    → IsValid w.pipe
    → some (read_now size w) ≡ some (out, w')
    → IsValid w'.pipe
IsValid-of_eq size w {out} {w'} v e =
    let same : read_now size w ≡ (out, w') = cc in
    subst (λ (r : List ℕ × World). IsValid r.1.pipe) same (read_now-IsValid size w v)

pub block-IsValid : (me : ℕ) (w : World) → IsValid w.pipe → IsValid (block me w).pipe
unfolding block
block-IsValid me w v = omega arith

pub unblock-IsValid : (w : World) → IsValid w.pipe → IsValid (unblock w).pipe
unfolding unblock
unblock-IsValid w v = omega arith

-- A read that returns leaves a valid pipe, whatever happened while it waited.
pub read-IsValid-some :
    (me size : ℕ) (envs : List (World → World)) (w : World) {out : List ℕ} {w' : World}
    → Keeps envs
    → IsValid w.pipe
    → read me size envs w ≡ some (out, w')
    → IsValid w'.pipe
unfolding read
read-IsValid-some me size [] w {out} {w'} k v e = elim (Bool-cases (must_wait w.pipe)) [
  | inl b ↦ let clash : ◌≡◌ {A = Option (List ℕ × World)} none (some (out, w')) = rw b at e in cc
  | inr b ↦ IsValid-of_eq size w v (rw b at e)
]
read-IsValid-some me size (env ∷ envs) w k v e = elim (Bool-cases (must_wait w.pipe)) [
  | inl b ↦
      let halted = k.0 (block me w) (block-IsValid me w v) in
      read-IsValid-some me size envs (unblock (env (block me w))) k.1
        (unblock-IsValid (env (block me w)) halted) (rw b at e)
  | inr b ↦ IsValid-of_eq size w v (rw b at e)
]

-- Changing the counts of readers and writers keeps the invariant.
pub remove_writer-IsValid : (w : World) → IsValid w.pipe → IsValid (remove_writer w).pipe
unfolding remove_writer
remove_writer-IsValid w v = ground arith

pub remove_reader-IsValid : (w : World) → IsValid w.pipe → IsValid (remove_reader w).pipe
unfolding remove_reader
remove_reader-IsValid w v = ground arith
