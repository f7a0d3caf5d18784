-- ===== src/Task/Trampoline/Tests.antt =====
-- SIGTERM at a 64-bit task that has a handler at 4096.
use curls.Prelude.{◌≡◌, refl, false, arith}
use curls.Prelude.Bits.{test_bit}
use curls.Task.{Task, ready}
use curls.Task.Trampoline.{Cpu, is_due, pick, width, cut, return_at, check_pending, sigreturn}
use curls.Task.Trampoline.Frame.{Frame, dispatch_return}

abbrev handling : Task
handling = record {
  id = 3;
  parent = 0;
  state = ready;
  next = 0;
  pending_signals = 32772;
  sigterm_handler = 4096;
  saved_eip = 0;
  saved_esp = 0;
  in_signal = false;
  sleep_until = 0;
  sleep_next = 0;
  exit_code = 0;
}

abbrev trapped : Cpu
trapped = record {
  regs = record { cs = 51; ip = 8000; sp = 100000; sysno = 7 };
  tasks = λ _. handling;
  current = 5;
  memory = λ _. 0;
}

dispatch_return_example :
    Frame (width trapped.regs) 100000 (pick handling) (λ _. 0) (check_pending trapped).memory
    × ((check_pending trapped).regs.ip ≡ cut trapped.regs 4096)
    × ((check_pending trapped).regs.sp ≡ cut trapped.regs (return_at (width trapped.regs) 100000))
    × (test_bit ((check_pending trapped).tasks 5).pending_signals (pick handling) ≡ false)
    × ((sigreturn (check_pending trapped)).regs.ip ≡ 8000)
    × ((sigreturn (check_pending trapped)).regs.sp ≡ 100000)
    × (((sigreturn (check_pending trapped)).tasks 5).in_signal ≡ false)
unfolding is_due pick test_bit
dispatch_return_example = dispatch_return trapped refl (omega arith) (omega arith)
