-- ===== src/Task/Trampoline.antt =====
-- Signal handlers in user mode, on x86_64: `task_check_pending_signals` of kernel/core/task.c builds
-- the frame, and UABI_SIGRETURN of kernel/core/syscall_dispatch.c leaves it.
pub mod Memory
pub mod Frame
mod Tests
use curls.Prelude.{
  ℕ, zero, suc, ◌+◌, ◌-◌, ◌*◌, ◌/◌, ◌%◌, ◌^◌, Bool, true, false, ◌&&◌, ◌||◌, List, [], ◌∷◌,
}
use curls.Prelude.Tests.{not, ◌==◌, if◌then◌else◌}
use curls.Prelude.Bits.{test_bit, clear_bit}
use curls.Prelude.Store.{update}
use curls.Task.{Task, Tasks, null}
use curls.Task.Signal.{sigint, sigterm}
use Memory.{store, le_bytes}

-- What the two read and write of `registers_t`; `sysno` is rax.
pub record Regs : Type 0 where
  pub cs : ℕ
  pub ip : ℕ
  pub sp : ℕ
  pub sysno : ℕ

pub record Cpu : Type 0 where
  pub regs : Regs
  pub tasks : Tasks
  pub current : ℕ
  pub memory : ℕ → ℕ

-- mov eax, 50; int 0x80
abbrev pub trampoline_code : List ℕ
trampoline_code = 184 ∷ 50 ∷ 0 ∷ 0 ∷ 0 ∷ 205 ∷ 128 ∷ []

-- `a -= n` on a `uint64_t`
abbrev pub minus : ℕ → ℕ → ℕ
minus a n = (a + 2 ^ 64 - n) % 2 ^ 64

abbrev pub is_32bit : Regs → Bool
is_32bit r = r.cs % 2 ^ 16 == 43

-- The signal to dispatch, or 0.
unfoldable pub pick : Task → ℕ
pick t =
    if test_bit t.pending_signals sigterm
    then sigterm
    else if test_bit t.pending_signals sigint
    then sigint
    else 0

-- The tests before a dispatch.
unfoldable pub is_due : Cpu → Bool
unfolding pick
is_due c =
    not (c.current == null)
    && (not (c.regs.cs % 4 == 0)
        && (not (c.tasks c.current).in_signal
            && (not ((c.tasks c.current).sigterm_handler == 0)
                && not (pick (c.tasks c.current) == 0))))

-- The width of a pushed word.
abbrev pub width : Regs → ℕ
width r = if is_32bit r then 4 else 8

-- Where the frame puts the trampoline, the number of the signal and the return address.
abbrev pub trampoline_at : ℕ → ℕ
trampoline_at sp = minus sp 7

abbrev pub argument_at : ℕ → ℕ → ℕ
argument_at w sp = minus (trampoline_at sp / w * w) w

abbrev pub return_at : ℕ → ℕ → ℕ
return_at w sp = minus (argument_at w sp) w

pub build : ℕ → ℕ → ℕ → (ℕ → ℕ) → ℕ → ℕ
build w sp sig m =
    store (le_bytes w (trampoline_at sp)) (return_at w sp)
      (store (le_bytes w sig) (argument_at w sp) (store trampoline_code (trampoline_at sp) m))

-- A register that 32-bit code gets is cut to 32 bits.
abbrev pub cut : Regs → ℕ → ℕ
cut r x = if is_32bit r then x % 2 ^ 32 else x

pub dispatch : ℕ → Cpu → Cpu
unfolding build
dispatch sig c =
    let t = c.tasks c.current in
    record c {
      regs = record (c.regs) {
        ip = cut c.regs t.sigterm_handler;
        sp = cut c.regs (return_at (width c.regs) c.regs.sp);
      };
      tasks = update c.tasks c.current (record t {
        pending_signals = clear_bit t.pending_signals sig;
        saved_eip = c.regs.ip;
        saved_esp = c.regs.sp;
        in_signal = true;
      });
      memory = build (width c.regs) c.regs.sp sig c.memory;
    }

-- `task_check_pending_signals`
pub check_pending : Cpu → Cpu
unfolding is_due dispatch pick
check_pending c = if is_due c then dispatch (pick (c.tasks c.current)) c else c

-- The call UABI_SIGRETURN.
pub sigreturn : Cpu → Cpu
sigreturn c =
    let t = c.tasks c.current in
    if t.in_signal
    then record c {
      regs = record (c.regs) { ip = t.saved_eip; sp = t.saved_esp; sysno = 0 };
      tasks = update c.tasks c.current (record t { in_signal = false });
    }
    else record c { regs = record (c.regs) { sysno = 0 } }
