-- ===== src/Ktrace.antt =====
-- The persistent trace of kernel/ktrace/ktrace.c: a ring of 4096 events in memory that survives a reboot, and
-- a snapshot for a panic. Characters are numbers. Printing is the list of what is printed.
pub mod Replay
mod Tests
use curls.Prelude.{
  ℕ, zero, suc, ◌+◌, ◌-◌, ◌%◌, ◌^◌, Bool, true, false, ◌&&◌, Option, none, some, List, [], ◌∷◌,
}
use curls.Prelude.Tests.{not, ltb, ◌==◌, if◌then◌else◌}
use curls.Prelude.Lists.{take}
use curls.Prelude.Store.{update}

-- `ktrace_entry_t`
pub record Entry : Type 0 where
  pub ts : ℕ
  pub cpu : ℕ
  pub event_id : ℕ
  pub flags : ℕ
  pub args : List ℕ

-- `ktrace_state_t`; `size` and `mask` are those of the ring, and the fields from `flag` on the snapshot's.
pub record Ktrace : Type 0 where
  pub magic : ℕ
  pub version : ℕ
  pub size : ℕ
  pub mask : ℕ
  pub head : ℕ
  pub entries : ℕ → Entry
  pub flag : Bool
  pub cpu : ℕ
  pub tsc : ℕ
  pub head_snapshot : ℕ
  pub msg : List ℕ

-- KTRACE_RING_SIZE
abbrev pub ring_size : ℕ
ring_size = 4096

-- KTRACE_MAGIC and KTRACE_VERSION
abbrev pub trace_magic : ℕ
trace_magic = 1263817283

abbrev pub trace_version : ℕ
trace_version = 1

-- KTRACE_PANIC
abbrev pub panic_event : ℕ
panic_event = 99

-- The loop of `ktrace_init` over the ring keeps the other fields of an entry.
pub cleared : Entry → Entry
cleared e = record e { event_id = 0; ts = 0 }

-- From `init_fresh:`
pub init_fresh : Ktrace → Ktrace
unfolding cleared
init_fresh k = record k {
  magic = trace_magic;
  version = trace_version;
  flag = false;
  cpu = 0;
  tsc = 0;
  head_snapshot = 0;
  size = ring_size;
  mask = ring_size - 1;
  head = 0;
  entries = λ i. if ltb i ring_size then cleared (k.entries i) else k.entries i;
}

-- `ktrace_init`
unfoldable pub ktrace_init : Ktrace → Ktrace
unfolding init_fresh
ktrace_init k =
    if (k.magic == trace_magic) && (k.version == trace_version)
    then if k.flag then k else if k.size == ring_size then k else init_fresh k
    else init_fresh k

-- `ktrace_event` at the time `tick`
pub ktrace_event : ℕ → ℕ → List ℕ → Ktrace → Ktrace
ktrace_event tick id args k = record k {
  entries =
      update k.entries (k.head % ring_size)
        (record { ts = tick; cpu = 0; event_id = id; flags = 0; args = args });
  head = (k.head + 1) % 2 ^ 32;
}

-- The message up to its end, at most 127 characters of it.
pub up_to_zero : List ℕ → List ℕ
up_to_zero [] = []
up_to_zero (c ∷ cs) = let rest = up_to_zero cs in if c == 0 then [] else c ∷ rest

-- `ktrace_panic_snapshot`; none is a NULL message.
unfoldable pub ktrace_panic_snapshot : ℕ → Option (List ℕ) → Ktrace → Ktrace
unfolding ktrace_event up_to_zero
ktrace_panic_snapshot tick msg k =
    let k1 = ktrace_event tick panic_event (0 ∷ 0 ∷ 0 ∷ 0 ∷ []) k in
    record k1 {
      flag = true;
      cpu = 0;
      tsc = tick;
      head_snapshot = k1.head;
      msg = elim msg [ none ↦ [] | some cs ↦ take 127 (up_to_zero cs) ];
    }

-- The loop of `ktrace_replay` with the rounds that are left.
pub replay_loop : ℕ → ℕ → (ℕ → Entry) → List (ℕ × Entry)
replay_loop zero head entries = []
replay_loop (suc i) head entries =
    let seq = (head + 2 ^ 32 - suc i) % 2 ^ 32 in
    let e = entries (seq % ring_size) in
    let rest = replay_loop i head entries in if not (e.event_id == 0) then (seq, e) ∷ rest else rest

-- The number of events that `ktrace_replay` walks over.
abbrev pub clipped : ℕ → ℕ → ℕ
clipped count head =
    let most = if ltb head count then head else count in
    if ltb ring_size most then ring_size else most

-- `ktrace_replay`: the events that it prints, and the state with the snapshot consumed.
pub ktrace_replay : ℕ → Ktrace → List (ℕ × Entry) × Ktrace
unfolding replay_loop
ktrace_replay count k =
    let head = if k.flag then k.head_snapshot else k.head in
    if not k.flag && (k.head == 0)
    then ([], k)
    else (replay_loop (clipped count head) head k.entries, record k { flag = false })
