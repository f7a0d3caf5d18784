-- ===== src/Task/Signal/Deliver.antt =====
-- What `task_deliver_signal` does to its target and to the parent.
use curls.Prelude.{
  ℕ, suc, ◌<◌, ◌≡◌, ◌≢◌, refl, ap, ap₂, ◌∙◌, inl, inr, Bool, true, false, ◌&&◌, ◌||◌, some, List,
  arith, subst,
}
use curls.Prelude.Tests.{not, ◌==◌, if◌then◌else◌, Bool-cases}
use curls.Prelude.Lists.{length}
use curls.Prelude.Bits.{test_bit, set_bit, test_bit-set_self, test_bit-set_ne}
use curls.Prelude.Store.{update}
use curls.Task.{Task, Tasks, TaskState, ready, zombie, is_waiting, is_zombie, null}
use curls.Task.Sleep
use curls.Task.Sleep.{Sleepers}
use curls.Task.Sleep.Chain.{Queued, Fresh, SameKeys-all, Chain-frame, IsSorted-same}
use curls.Task.Sleep.Erase.{erase}
use curls.Task.Sleep.Unlink.{strip}
use curls.Task.Sleep.Remove.{Gone, remove-Gone}
use curls.Task.Signal.{
  Kernel, returned, parked, sigint, sigkill, sigterm, sigchld, raise, notify_parent, bury, finish,
  after_sleep, terminate, deliver,
}

-- The signals that end the task: SIGKILL, and SIGTERM or SIGINT without a handler.
unfoldable pub is_fatal : ℕ → Task → Bool
is_fatal sig r =
    (sig == sigkill) || ((sig == sigterm) || (sig == sigint)) && (r.sigterm_handler == 0)

-- Bit by bit, what `|=` with one bit does.
pub test_bit-set : (x k j : ℕ) → test_bit (set_bit x k) j ≡ (if j == k then true else test_bit x j)
test_bit-set x k j = elim (Bool-cases (j == k)) [
  | inl e ↦
      let same : k ≡ j = ground arith in
      rw e (subst (λ i. test_bit (set_bit x k) i ≡ true) same (test_bit-set_self x k))
  | inr e ↦ rw e (test_bit-set_ne x k j (λ z. let r : (j == k) ≡ true = ground arith in cc))
]

-- The parent of `t` that a death is told to: an address that is not NULL.
abbrev pub is_parent : ℕ → ℕ → Tasks → Bool
is_parent a t ts = not (a == null) && (a == (ts t).parent)

-- What a fatal signal leaves.
pub record Terminated (k : Kernel) (t : ℕ) (xs : List ℕ) (k' : Kernel) : Type 0 where
  pub queued : Queued k'.sleep_queue k'.tasks (erase t xs)
  pub off : Fresh t (erase t xs)
  pub states :
      (a : ℕ)
      → (k'.tasks a).state ≡ (
          if a == t
          then zombie
          else if is_parent a t k.tasks && is_waiting (k.tasks a).state
          then ready
          else (k.tasks a).state)
  pub pending :
      (a j : ℕ)
      → test_bit (k'.tasks a).pending_signals j ≡ (
          if is_parent a t k.tasks && (j == sigchld)
          then true
          else test_bit (k.tasks a).pending_signals j)
  pub same_lock : k'.rq_locked ≡ k.rq_locked
  pub same_current : k'.current ≡ k.current

module _ (t : ℕ) (ts : Tasks) where
  dead : Tasks
  dead = notify_parent (ts t).parent (bury t ts)

  dead-state :
      (a : ℕ)
      → (dead a).state ≡ (
          if a == t
          then zombie
          else if is_parent a t ts && is_waiting (ts a).state
          then ready
          else (ts a).state)
  unfolding dead notify_parent bury raise update
  dead-state a = ground arith

  dead-pending :
      (a j : ℕ)
      → test_bit (dead a).pending_signals j
        ≡ (if is_parent a t ts && (j == sigchld) then true else test_bit (ts a).pending_signals j)
  unfolding dead notify_parent bury raise update
  dead-pending a j = ground (arith, test_bit-set (ts a).pending_signals sigchld j)

  dead-sleep :
      (a : ℕ)
      → ((dead a).sleep_next ≡ (ts a).sleep_next) × ((dead a).sleep_until ≡ (ts a).sleep_until)
  unfolding dead notify_parent bury raise update
  dead-sleep a = ground arith

deliver_fatal :
    (fuel t sig : ℕ) (k : Kernel)
    → t ≢ null
    → is_fatal sig (k.tasks t) ≡ true
    → deliver fuel t sig k ≡ terminate fuel t k
unfolding deliver is_fatal
deliver_fatal fuel t sig k n f = ground arith

module _ (t : ℕ) (k : Kernel) (s : Sleepers) (xs : List ℕ)
    (g : Gone (record { head = k.sleep_queue; tasks = k.tasks }) t xs s) where
  -- The kernel after the death.
  buried : Kernel
  buried = record k { tasks = dead t s.tasks; sleep_queue = s.head }

  same_parent : (s.tasks t).parent ≡ (k.tasks t).parent
  unfolding strip
  same_parent = ap (λ (r : Task). r.parent) (g.fields t)

  buried-Terminated : Terminated k t xs buried
  unfolding buried strip
  buried-Terminated = record {
    queued = record {
      chain =
          Chain-frame s.tasks (dead t s.tasks) s.head (erase t xs)
            (λ a n. (dead-sleep t s.tasks a).0) g.queued.chain;
      distinct = g.queued.distinct;
      sorted =
          IsSorted-same s.tasks (dead t s.tasks) (erase t xs)
            (SameKeys-all s.tasks (dead t s.tasks) (erase t xs) (λ a. (dead-sleep t s.tasks a).1))
            g.queued.sorted;
    };
    off = g.off;
    states = λ a.
        dead-state t s.tasks a
        ∙ ap₂
            (λ p (st : TaskState).
              if a == t
              then zombie
              else if not (a == null) && (a == p) && is_waiting st
              then ready
              else st)
            same_parent (ap (λ (r : Task). r.state) (g.fields a));
    pending = λ a j.
        dead-pending t s.tasks a j
        ∙ ap₂
            (λ p bits.
              if not (a == null) && (a == p) && (j == sigchld) then true else test_bit bits j)
            same_parent (ap (λ (r : Task). r.pending_signals) (g.fields a));
    same_lock = refl;
    same_current = refl;
  }

  terminate-buried :
      (fuel : ℕ)
      → is_zombie (k.tasks t).state ≡ false
      → Sleep.remove fuel t (record { head = k.sleep_queue; tasks = k.tasks }) ≡ some s
      → terminate fuel t k ≡ (if t == k.current then parked buried else returned buried)
  unfolding terminate after_sleep finish buried dead
  terminate-buried fuel alive ran = rw (alive, ran)

-- SIGKILL, and SIGTERM or SIGINT at a task without a handler, end a task that is not dead yet: it
-- is a zombie and off the sleep queue, whose order stays; its parent has SIGCHLD pending and is
-- ready if it was waiting; no other state and no other pending bit changes. The call returns,
-- unless the target is the running task: then it never does.
pub deliver-Terminated :
    (fuel t sig : ℕ) (k : Kernel) (xs : List ℕ)
    → suc (length xs) < fuel
    → t ≢ null
    → is_fatal sig (k.tasks t) ≡ true
    → is_zombie (k.tasks t).state ≡ false
    → ((k.tasks t).sleep_until ≡ 0 → Fresh t xs)
    → Queued k.sleep_queue k.tasks xs
    → (k' : Kernel) × (deliver fuel t sig k ≡ (if t == k.current then parked k' else returned k'))
      × Terminated k t xs k'
deliver-Terminated fuel t sig k xs f n fatal alive aw q =
    let (s, ran, g) =
      remove-Gone fuel t (record { head = k.sleep_queue; tasks = k.tasks }) xs f n aw q in
    (
      buried t k s xs g,
      deliver_fatal fuel t sig k n fatal ∙ terminate-buried t k s xs g fuel alive ran,
      buried-Terminated t k s xs g,
    )

-- The bits that a signal without a death sets.
abbrev pub is_raised : ℕ → ℕ → Kernel → ℕ → ℕ → Bool
is_raised t sig k a j =
    (j == sig)
    && ((a == t) && ((sig == sigterm) || (sig == sigint))
        || is_parent a t k.tasks && (sig == sigchld))

-- The kernel after a signal that ends no task.
signalled : ℕ → ℕ → Kernel → Kernel
signalled t sig k =
    if (sig == sigterm) || (sig == sigint)
    then record k { tasks = raise t sig k.tasks }
    else if (sig == sigchld) && not ((k.tasks t).parent == null)
    then record k { tasks = raise (k.tasks t).parent sigchld k.tasks }
    else k

raise-state : (t sig : ℕ) (ts : Tasks) (a : ℕ) → (raise t sig ts a).state ≡ (ts a).state
unfolding raise update
raise-state t sig ts a = ground arith

raise-pending :
    (t sig : ℕ) (ts : Tasks) (a j : ℕ)
    → test_bit (raise t sig ts a).pending_signals j
      ≡ (if (a == t) && (j == sig) then true else test_bit (ts a).pending_signals j)
unfolding raise update
raise-pending t sig ts a j = ground (arith, test_bit-set (ts a).pending_signals sig j)

deliver-signalled :
    (fuel t sig : ℕ) (k : Kernel)
    → t ≢ null
    → is_fatal sig (k.tasks t) ≡ false
    → deliver fuel t sig k ≡ returned (signalled t sig k)
unfolding deliver is_fatal signalled
deliver-signalled fuel t sig k n nf = ground arith

signalled-state :
    (t sig : ℕ) (k : Kernel) (a : ℕ) → ((signalled t sig k).tasks a).state ≡ (k.tasks a).state
unfolding signalled
signalled-state t sig k a =
    ground (arith, raise-state t sig k.tasks a, raise-state (k.tasks t).parent sigchld k.tasks a)

signalled-pending :
    (t sig : ℕ) (k : Kernel) (a j : ℕ)
    → test_bit ((signalled t sig k).tasks a).pending_signals j
      ≡ (if is_raised t sig k a j then true else test_bit (k.tasks a).pending_signals j)
unfolding signalled
signalled-pending t sig k a j =
    ground
      (arith, raise-pending t sig k.tasks a j, raise-pending (k.tasks t).parent sigchld k.tasks a j)

-- Any other signal changes no state. With a handler SIGTERM and SIGINT set their own bit of the
-- target; SIGCHLD sets its bit of the parent; nothing else is set. The call returns.
pub deliver_not_fatal :
    (fuel t sig : ℕ) (k : Kernel)
    → t ≢ null
    → is_fatal sig (k.tasks t) ≡ false
    → (k' : Kernel) × (deliver fuel t sig k ≡ returned k')
      × ((a : ℕ) → (k'.tasks a).state ≡ (k.tasks a).state)
      × ((a j : ℕ)
          → test_bit (k'.tasks a).pending_signals j
            ≡ (if is_raised t sig k a j then true else test_bit (k.tasks a).pending_signals j))
deliver_not_fatal fuel t sig k n nf = (
  signalled t sig k,
  deliver-signalled fuel t sig k n nf,
  signalled-state t sig k,
  signalled-pending t sig k,
)
