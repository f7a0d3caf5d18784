-- ===== src/Pipe/Refine.antt =====
-- A valid pipe behaves as the bounded queue of the bytes that it holds.
use curls.Prelude.{
  ℕ, zero, suc, ◌-◌, ◌%◌, ◌^◌, ◌≤◌, ◌<◌, ◌≡◌, refl, sym, ◌≢◌, inl, inr, false, ◌&&◌, List, [], ◌∷◌,
  ◌++◌, append-nil, append_assoc, ap, ap₂, arith, min, ◌∙◌,
}
use curls.Prelude.Tests.{ltb, ◌==◌, Bool-cases}
use curls.Prelude.Lists.{
  length, get_or, set, take, drop, get_or-set_self, get_or-set_ne, take-nil, drop-nil, take_pos,
}
use curls.Pipe.{Pipe, World, inc32, take_byte, drain, put_byte, fill, wrote, write, read_now}
use curls.Pipe.Inv.{IsValid, Ahead, next_slot, take_byte-IsValid, put_byte-IsValid}
use curls.Pipe.Queue
use curls.Pipe.Queue.{Queue, Written, wrote, broken}

module _ (buf : List ℕ) (size : ℕ) where
  -- The `n` bytes that lie in the ring from slot `at` on.
  abbrev pub held : ℕ → ℕ → Queue
  held at zero = []
  held at (suc n) = get_or buf at 0 ∷ held (inc32 at % size) n

  held_pos : (at n : ℕ) → n ≢ 0 → held at n ≡ get_or buf at 0 ∷ held (inc32 at % size) (n - 1)
  held_pos at zero h = absurd (h refl)
  held_pos at (suc n) h = ap (λ k. get_or buf at 0 ∷ held (inc32 at % size) k) (omega arith)

  length-held : (at n : ℕ) → length (held at n) ≡ n
  length-held at zero = refl
  length-held at (suc n) = ap suc (length-held (inc32 at % size) n)

-- The bytes that wait in a pipe, oldest first.
abbrev pub contents : Pipe → Queue
contents p = held p.buffer p.size p.tail p.len

pub length-contents : (p : Pipe) → length (contents p) ≡ p.len
length-contents p = length-held p.buffer p.size p.tail p.len

-- A byte written `n` slots ahead extends the bytes that are held by itself.
held-set :
    (buf : List ℕ) (size b n at i : ℕ)
    → size < 2 ^ 32
    → size ≤ length buf
    → at < size
    → n < size
    → Ahead size at n i
    → held (set buf i b) size at (suc n) ≡ held buf size at n ++ (b ∷ [])
held-set buf size b zero at i w st a n h =
    let e : i ≡ at = omega arith in rw (e, get_or-set_self buf at b 0 (omega arith))
held-set buf size b (suc n) at i w st a lt h = ap₂ ◌∷◌ (get_or-set_ne buf i at b 0 (omega arith)) (
    held-set buf size b n (inc32 at % size) i w st (omega (arith, next_slot size at w a))
      (omega arith) (omega (arith, next_slot size at w a)))

pub drain_lem :
    (k : ℕ) {p : Pipe}
    → IsValid p
    → ((drain k p).0 ≡ take k (contents p)) × (contents (drain k p).1 ≡ drop k (contents p))
unfolding drain take_byte
drain_lem zero v = (refl, refl)
drain_lem (suc k) {p} v = elim (Bool-cases (p.len == 0)) [
  | inl e ↦
      let z : p.len ≡ 0 = ground arith in
      let c : contents p ≡ [] = ap (held p.buffer p.size p.tail) z in
      rw e (sym (ap (take (suc k)) c), c ∙ sym (ap (drop (suc k)) c))
  | inr e ↦
      let ih = drain_lem k (take_byte-IsValid v (ground arith)) in
      rw (e, held_pos p.buffer p.size p.tail p.len (ground arith))
        (ap (λ l. get_or p.buffer p.tail 0 ∷ l) ih.0, ih.1)
]

put_byte-room :
    {p : Pipe} (b : ℕ)
    → IsValid p
    → p.len < p.size
    → (put_byte p b).size - (put_byte p b).len ≡ p.size - p.len - 1
unfolding put_byte
put_byte-room b v room = omega arith

contents-put_byte :
    {p : Pipe} (b : ℕ)
    → IsValid p
    → p.len < p.size
    → contents (put_byte p b) ≡ contents p ++ (b ∷ [])
unfolding put_byte
contents-put_byte {p} b v room =
    let e : inc32 p.len ≡ suc p.len = omega arith in
    ap (held (set p.buffer p.head b) p.size p.tail) e
    ∙ held-set p.buffer p.size b p.len p.tail p.head v.word v.storage v.tail_in room v.head_at

pub fill_lem :
    (bs : List ℕ) {p : Pipe}
    → IsValid p
    → ((fill bs p).0 ≡ min (length bs) (p.size - p.len))
      × (contents (fill bs p).1 ≡ contents p ++ take (p.size - p.len) bs)
unfolding fill
fill_lem [] {p} v = (omega arith, sym (rw take-nil (append-nil (contents p))))
fill_lem (b ∷ bs) {p} v = elim (Bool-cases (ltb p.len p.size)) [
  | inl e ↦
      let room : p.len < p.size = ground arith in
      let ih = fill_lem bs (put_byte-IsValid b v room) in
      let left : (put_byte p b).size - (put_byte p b).len ≡ p.size - p.len - 1 =
        put_byte-room b v room in
      rw e (
        omega arith,
        ih.1
            ∙ ap₂ ◌++◌ (contents-put_byte b v room) (ap (λ n. take n bs) left)
            ∙ append_assoc (contents p) (b ∷ []) (take (p.size - p.len - 1) bs)
            ∙ ap (λ l. contents p ++ l) (sym (take_pos (p.size - p.len) b bs (omega arith))),
      )
  | inr e ↦
      let full : p.size - p.len ≡ 0 = ground arith in
      rw (e, full) (omega arith, sym (append-nil (contents p)))
]

-- What `pipe_read` copies, once it need not wait, are the oldest bytes, and the rest stays.
pub read_refines :
    (size : ℕ) (w : World)
    → IsValid w.pipe
    → ((read_now size w).0, contents (read_now size w).1.pipe) ≡ Queue.read size (contents w.pipe)
unfolding read_now Queue.read
read_refines size w v = elim (Bool-cases ((w.pipe.len == 0) && (w.pipe.writers == 0))) [
  | inl e ↦
      let z : w.pipe.len ≡ 0 = ground arith in
      let c : contents w.pipe ≡ [] = ap (held w.pipe.buffer w.pipe.size w.pipe.tail) z in
      rw e (
        ap₂ (λ a b. (a, b)) (sym (ap (take size) c ∙ take-nil size))
          (c ∙ sym (ap (drop size) c ∙ drop-nil size)))
  | inr e ↦ rw e (ap₂ (λ a b. (a, b)) (drain_lem size v).0 (drain_lem size v).1)
]

-- `pipe_write` answers as the bounded queue does, and leaves what the queue then holds: without a
-- reader it fails, else it takes as many bytes as there is room for. It does not panic.
pub write_refines :
    (bytes : List ℕ) (w : World)
    → IsValid w.pipe
    → ((write bytes w).0, contents (write bytes w).1.pipe)
      ≡ Queue.write w.pipe.size w.pipe.readers bytes (contents w.pipe)
unfolding write Queue.write
write_refines bytes w v = elim (Bool-cases (w.pipe.readers == 0)) [
  | inl e ↦ rw e
  | inr e ↦
      let size : (w.pipe.size == 0) ≡ false = ground arith in
      rw (e, size, length-contents w.pipe)
        (ap₂ (λ n q. (wrote n, q)) (fill_lem bytes v).0 (fill_lem bytes v).1)
]
