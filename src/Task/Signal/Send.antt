-- ===== src/Task/Signal/Send.antt =====
-- `task_send_signal` and `kill`: the search by id, and what the two do with `rq_lock`.
use curls.Prelude.{ℕ, suc, ◌<◌, ◌≡◌, ◌≢◌, refl, Bool, true, false, List, ◌∷◌, arith}
use curls.Prelude.Tests.{◌==◌, if◌then◌else◌}
use curls.Prelude.Lists.{length}
use curls.Task.{null, is_zombie}
use curls.Task.Sleep.Chain.{Queued, Fresh}
use curls.Task.Signal.{
  Kernel, Outcome, returned, parked, found, missing, sent, failed, never, lock, unlock,
  after_delivery, send_to, send, kill, kill_found, deliver,
}
use curls.Task.Signal.Ring.{Ring, first_with, find-first_with}
use curls.Task.Signal.Deliver.{Terminated, is_fatal, deliver-Terminated}

-- An id that no task of the ready queue has: -1, and the lock is free again.
pub send_unknown :
    (fuel pid sig : ℕ) (k : Kernel) (ring : List ℕ)
    → length ring < fuel
    → pid ≢ 2
    → Ring k.tasks k.ready_queue ring
    → first_with pid k.tasks (k.ready_queue ∷ ring) ≡ missing
    → (send fuel pid sig k ≡ failed (unlock k)) × (kill fuel pid k ≡ returned k)
unfolding send send_to kill kill_found
send_unknown fuel pid sig k ring f n r e =
    let user : (pid == 2) ≡ false = ground arith in
    let some_task : (k.ready_queue == null) ≡ false = ground (arith, r.0) in
    rw (user, some_task, find-first_with fuel pid k.tasks k.ready_queue ring f r, e) (refl, refl)

after_delivery_if :
    (b : Bool) (k : Kernel) (o : Outcome)
    → o ≡ (if b then parked k else returned k)
    → after_delivery o ≡ (if b then never k else sent (unlock k))
unfolding after_delivery
after_delivery_if true k o e = rw e refl
after_delivery_if false k o e = rw e refl

-- A fatal signal to the first task of the ready queue with the id, when it is alive: the task dies
-- as `Terminated` says. If it is another task the call returns 0 and gives the lock back. If it is
-- the running task the call never returns, and it keeps the lock.
pub send-Terminated :
    (fuel pid sig t : ℕ) (k : Kernel) (ring xs : List ℕ)
    → length ring < fuel
    → suc (length xs) < fuel
    → pid ≢ 2
    → Ring k.tasks k.ready_queue ring
    → first_with pid k.tasks (k.ready_queue ∷ ring) ≡ found t
    → t ≢ null
    → is_fatal sig (k.tasks t) ≡ true
    → is_zombie (k.tasks t).state ≡ false
    → ((k.tasks t).sleep_until ≡ 0 → Fresh t xs)
    → Queued k.sleep_queue k.tasks xs
    → (k' : Kernel) × (send fuel pid sig k
        ≡ (if t == k.current then never k' else sent (unlock k')))
      × (k'.rq_locked ≡ true)
      × Terminated (lock k) t xs k'
unfolding send send_to
send-Terminated fuel pid sig t k ring xs f f' n r e tn fatal alive aw q =
    let user : (pid == 2) ≡ false = ground arith in
    let some_task : (k.ready_queue == null) ≡ false = ground (arith, r.0) in
    let (k', ran, dead) = deliver-Terminated fuel t sig (lock k) xs f' tn fatal alive aw q in
    (
      k',
      rw (user, some_task, find-first_with fuel pid k.tasks k.ready_queue ring f r, e)
          (after_delivery_if (t == k.current) k' (deliver fuel t sig (lock k)) ran),
      dead.same_lock,
      dead,
    )
