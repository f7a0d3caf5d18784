-- ===== src/Task/Trampoline/Frame.antt =====
-- What a dispatch builds, and that the return undoes it.
use curls.Prelude.{
  ℕ, ◌+◌, ◌^◌, ◌<◌, ◌≤◌, ◌≡◌, refl, sym, ap, ◌∙◌, ◌⊎◌, inl, inr, true, false, arith,
}
use curls.Prelude.Tests.{ltb, if◌then◌else◌, Bool-cases}
use curls.Prelude.Bits.{test_bit, test_bit-clear_self}
use curls.Prelude.Store.{update_self}
use curls.Task.{Task}
use curls.Task.Trampoline.{
  Regs, Cpu, trampoline_code, is_32bit, pick, is_due, width, trampoline_at, argument_at, return_at,
  build, cut, dispatch, check_pending, sigreturn,
}
use curls.Task.Trampoline.Memory.{
  store, le_bytes, load, store-out, load-store_self, load-store_ne, length-le_bytes,
}

not_due : (c : Cpu) (sig : ℕ) → is_due (dispatch sig c) ≡ false
unfolding is_due dispatch
not_due c sig =
    let inside : ((dispatch sig c).tasks c.current).in_signal ≡ true =
      ap (λ (t : Task). t.in_signal) (update_self c.tasks c.current _) in
    rw inside (ground arith)

-- Checking for pending signals twice is checking once: a handler is never entered from within a
-- handler.
pub check_pending_idempotent : (c : Cpu) → check_pending (check_pending c) ≡ check_pending c
unfolding check_pending
check_pending_idempotent c = elim (Bool-cases (is_due c)) [
  | inr e ↦ rw (e, e) refl
  | inl e ↦
      let off : is_due (dispatch (pick (c.tasks c.current)) c) ≡ false =
        not_due c (pick (c.tasks c.current)) in
      rw (e, off) refl
]

-- The frame for a stack pointer `sp` and words of `w` bytes.
pub record Frame (w sp sig : ℕ) (m m' : ℕ → ℕ) : Type 0 where
  pub code : load 7 (trampoline_at sp) m' ≡ trampoline_code
  pub argument : load w (return_at w sp + w) m' ≡ le_bytes w sig
  pub return : load w (return_at w sp) m' ≡ le_bytes w (trampoline_at sp)
  pub above : (x : ℕ) → (if ltb x sp then m x else m' x) ≡ m x
  pub below : (x : ℕ) → (if ltb x (return_at w sp) then m' x else m x) ≡ m x

module _ (w sp sig : ℕ) (m : ℕ → ℕ) (top : trampoline_at sp + 7 ≡ sp)
    (gap : argument_at w sp + w ≤ trampoline_at sp)
    (next : return_at w sp + w ≡ argument_at w sp) where
  with_code : ℕ → ℕ
  with_code = store trampoline_code (trampoline_at sp) m

  with_argument : ℕ → ℕ
  with_argument = store (le_bytes w sig) (argument_at w sp) with_code

  Frame-at : Frame w sp sig m (build w sp sig m)
  unfolding build with_code with_argument
  Frame-at = record {
    code =
        load-store_ne 7 (le_bytes w (trampoline_at sp)) (trampoline_at sp) (return_at w sp)
          with_argument (inr (omega (arith, gap, next, length-le_bytes w (trampoline_at sp))))
        ∙ load-store_ne 7 (le_bytes w sig) (trampoline_at sp) (argument_at w sp) with_code
            (inr (omega (arith, gap, length-le_bytes w sig)))
        ∙ load-store_self trampoline_code (trampoline_at sp) m;
    argument =
        load-store_ne w (le_bytes w (trampoline_at sp)) (return_at w sp + w) (return_at w sp)
          with_argument (inr (omega (arith, length-le_bytes w (trampoline_at sp))))
        ∙ ap (λ a. load w a with_argument) next
        ∙ ap (λ k. load k (argument_at w sp) with_argument) (sym (length-le_bytes w sig))
        ∙ load-store_self (le_bytes w sig) (argument_at w sp) with_code;
    return =
        ap (λ k. load k (return_at w sp) (build w sp sig m))
          (sym (length-le_bytes w (trampoline_at sp)))
        ∙ load-store_self (le_bytes w (trampoline_at sp)) (return_at w sp) with_argument;
    above = λ x. elim (Bool-cases (ltb x sp)) [
      | inl e ↦ rw e refl
      | inr e ↦ rw e (outside x (inr (ground arith)))
    ];
    below = λ x. elim (Bool-cases (ltb x (return_at w sp))) [
      | inl e ↦ rw e (outside x (inl (ground arith)))
      | inr e ↦ rw e refl
    ];
  }
    where
      outside : (x : ℕ) → (x < return_at w sp) ⊎ (sp ≤ x) → build w sp sig m x ≡ m x
      outside x (inl h) =
          store-out (le_bytes w (trampoline_at sp)) (return_at w sp) x with_argument (inl h)
          ∙ store-out (le_bytes w sig) (argument_at w sp) x with_code (inl (omega (arith, next)))
          ∙ store-out trampoline_code (trampoline_at sp) x m (inl (omega (arith, next, gap)))
      outside x (inr h) =
          store-out (le_bytes w (trampoline_at sp)) (return_at w sp) x with_argument
            (inr (omega (arith, next, gap, top, length-le_bytes w (trampoline_at sp))))
          ∙ store-out (le_bytes w sig) (argument_at w sp) x with_code
              (inr (omega (arith, gap, top, length-le_bytes w sig)))
          ∙ store-out trampoline_code (trampoline_at sp) x m (inr (omega (arith, top)))

build-Frame :
    (r : Regs) (sig : ℕ) (m : ℕ → ℕ)
    → 64 ≤ r.sp
    → r.sp < 2 ^ 64
    → Frame (width r) r.sp sig m (build (width r) r.sp sig m)
build-Frame r sig m low high = elim (Bool-cases (is_32bit r)) [
  | inl e ↦ rw e (Frame-at 4 r.sp sig m (omega arith) (omega arith) (omega arith))
  | inr e ↦ rw e (Frame-at 8 r.sp sig m (omega arith) (omega arith) (omega arith))
]

module _ (c : Cpu) (sig : ℕ) where
  entered : ((dispatch sig c).tasks c.current).in_signal ≡ true
  unfolding dispatch
  entered = ap (λ (t : Task). t.in_signal) (update_self c.tasks c.current _)

  return_ip : (sigreturn (dispatch sig c)).regs.ip ≡ c.regs.ip
  unfolding dispatch sigreturn
  return_ip = rw entered (ap (λ (t : Task). t.saved_eip) (update_self c.tasks c.current _))

  return_sp : (sigreturn (dispatch sig c)).regs.sp ≡ c.regs.sp
  unfolding dispatch sigreturn
  return_sp = rw entered (ap (λ (t : Task). t.saved_esp) (update_self c.tasks c.current _))

  return_in : ((sigreturn (dispatch sig c)).tasks c.current).in_signal ≡ false
  unfolding dispatch sigreturn
  return_in =
      rw entered (ap (λ (t : Task). t.in_signal) (update_self (dispatch sig c).tasks c.current _))

-- A signal that is due, with at least 64 bytes below the user's stack pointer. The handler is
-- entered with the frame: the 7 bytes that call UABI_SIGRETURN, the number of the signal as its
-- argument and the trampoline as its return address; no byte at or above the old stack pointer and
-- none below the frame changes. The bit of the signal is clear, and UABI_SIGRETURN then restores
-- the instruction and stack pointers and lets the next signal in.
pub dispatch_return :
    (c : Cpu)
    → is_due c ≡ true
    → 64 ≤ c.regs.sp
    → c.regs.sp < 2 ^ 64
    → Frame (width c.regs) c.regs.sp (pick (c.tasks c.current)) c.memory (check_pending c).memory
      × ((check_pending c).regs.ip ≡ cut c.regs (c.tasks c.current).sigterm_handler)
      × ((check_pending c).regs.sp ≡ cut c.regs (return_at (width c.regs) c.regs.sp))
      × (test_bit ((check_pending c).tasks c.current).pending_signals (pick (c.tasks c.current))
          ≡ false)
      × ((sigreturn (check_pending c)).regs.ip ≡ c.regs.ip)
      × ((sigreturn (check_pending c)).regs.sp ≡ c.regs.sp)
      × (((sigreturn (check_pending c)).tasks c.current).in_signal ≡ false)
unfolding check_pending
dispatch_return c due low high = rw due (
  build-Frame c.regs (pick (c.tasks c.current)) c.memory low high,
  refl,
  refl,
  ap (λ (t : Task). test_bit t.pending_signals (pick (c.tasks c.current)))
        (update_self c.tasks c.current _)
      ∙ test_bit-clear_self (c.tasks c.current).pending_signals (pick (c.tasks c.current)),
  return_ip c (pick (c.tasks c.current)),
  return_sp c (pick (c.tasks c.current)),
  return_in c (pick (c.tasks c.current)),
)
