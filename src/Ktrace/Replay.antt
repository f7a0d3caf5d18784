-- ===== src/Ktrace/Replay.antt =====
-- The trace across a crash and a reboot.
use curls.Prelude.{
  ℕ, zero, suc, ◌+◌, ◌-◌, ◌%◌, ◌^◌, ◌<◌, ◌≤◌, ◌≡◌, refl, ap, ap₂, sym, subst, ◌∙◌, inl, inr, true,
  false, ◌&&◌, Option, List, [], ◌∷◌, arith,
}
use curls.Prelude.Tests.{not, ◌==◌, if◌then◌else◌, Bool-cases}
use curls.Prelude.Lists.{length}
use curls.Prelude.Store.{update}
use curls.Ktrace.{
  Entry, Ktrace, panic_event, init_fresh, ktrace_init, ktrace_event, ktrace_panic_snapshot,
  replay_loop, clipped, ktrace_replay,
}

-- A call of `ktrace_event`.
pub record Call : Type 0 where
  pub tick : ℕ
  pub id : ℕ
  pub args : List ℕ

-- The calls, the oldest first.
abbrev pub record_all : List Call → Ktrace → Ktrace
record_all [] k = k
record_all (c ∷ cs) k = record_all cs (ktrace_event c.tick c.id c.args k)

abbrev pub entry_for : Call → Entry
entry_for c = record { ts = c.tick; cpu = 0; event_id = c.id; flags = 0; args = c.args }

abbrev pub blank : Entry
blank = record { ts = 0; cpu = 0; event_id = 0; flags = 0; args = [] }

-- The event with a sequence number: those of the calls from `n` on, and what `ev` says below.
abbrev pub history : (ℕ → Entry) → ℕ → List Call → ℕ → Entry
history ev n [] = ev
history ev n (c ∷ cs) = history (λ s. if s == n then entry_for c else ev s) (n + 1) cs

-- The last `i` events of `n`, without those of the identifier 0.
abbrev pub recent : ℕ → ℕ → (ℕ → Entry) → List (ℕ × Entry)
recent zero n ev = []
recent (suc i) n ev =
    if not ((ev (n - suc i)).event_id == 0)
    then (n - suc i, ev (n - suc i)) ∷ recent i n ev
    else recent i n ev

-- The ring holds the last 4096 of `n` events.
record Traced (ev : ℕ → Entry) (n : ℕ) (k : Ktrace) : Type 0 where
  head : k.head ≡ n
  held : (s : ℕ) → s < n → n ≤ s + 4096 → k.entries (s % 4096) ≡ ev s

ktrace_event-Traced :
    (ev : ℕ → Entry) (n : ℕ) (k : Ktrace) (c : Call)
    → n + 1 < 2 ^ 32
    → Traced ev n k
    → Traced (λ s. if s == n then entry_for c else ev s) (n + 1) (ktrace_event c.tick c.id c.args k)
unfolding ktrace_event update
ktrace_event-Traced ev n k c small t = record {
  head = omega (arith, t.head);
  held = λ s l r. elim (Bool-cases (s == n)) [
    | inl e ↦
        let same : s ≡ n = ground arith in
        let here : (k.head % 4096 == s % 4096) ≡ true = ground (arith, t.head) in
        ap (λ b. if b then entry_for c else k.entries (s % 4096)) here
        ∙ sym (ap (λ b. if b then entry_for c else ev s) e)
    | inr e ↦
        let older : s < n = ground arith in
        let elsewhere : (k.head % 4096 == s % 4096) ≡ false = ground (arith, t.head) in
        ap (λ b. if b then entry_for c else k.entries (s % 4096)) elsewhere
        ∙ t.held s older (omega arith)
        ∙ sym (ap (λ b. if b then entry_for c else ev s) e)
  ];
}

record_all-Traced :
    (cs : List Call) (ev : ℕ → Entry) (n : ℕ) (k : Ktrace)
    → n + length cs < 2 ^ 32
    → Traced ev n k
    → Traced (history ev n cs) (n + length cs) (record_all cs k)
record_all-Traced [] ev n k small t = subst (λ m. Traced ev m k) (omega arith) t
record_all-Traced (c ∷ cs) ev n k small t =
    let next : ℕ → Entry = λ s. if s == n then entry_for c else ev s in
    let total : n + 1 + length cs ≡ n + suc (length cs) = omega arith in
    subst (λ m. Traced (history next (n + 1) cs) m (record_all (c ∷ cs) k)) total
      (record_all-Traced cs next (n + 1) (ktrace_event c.tick c.id c.args k) (omega arith)
        (ktrace_event-Traced ev n k c (omega arith) t))

replay_loop-recent :
    (i n : ℕ) (ev entries : ℕ → Entry)
    → n < 2 ^ 32
    → i ≤ n
    → i ≤ 4096
    → ((s : ℕ) → s < n → n ≤ s + 4096 → entries (s % 4096) ≡ ev s)
    → replay_loop i n entries ≡ recent i n ev
unfolding replay_loop
replay_loop-recent zero n ev entries small le cap held = refl
replay_loop-recent (suc i) n ev entries small le cap held =
    let seq : (n + 2 ^ 32 - suc i) % 2 ^ 32 ≡ n - suc i = omega arith in
    let rest : replay_loop i n entries ≡ recent i n ev =
      replay_loop-recent i n ev entries small (omega arith) (omega arith) held in
    let at : entries ((n - suc i) % 4096) ≡ ev (n - suc i) =
      held (n - suc i) (omega arith) (omega arith) in
    ap
      (λ q.
        if not ((entries (q % 4096)).event_id == 0)
        then (q, entries (q % 4096)) ∷ replay_loop i n entries
        else replay_loop i n entries)
      seq
    ∙ ap₂ (λ e r. if not (e.event_id == 0) then (n - suc i, e) ∷ r else r) at rest

-- What `ktrace_init` looks at.
record SameLabel (k k' : Ktrace) : Type 0 where
  magic : k'.magic ≡ k.magic
  version : k'.version ≡ k.version

record_all-SameLabel : (cs : List Call) (k : Ktrace) → SameLabel k (record_all cs k)
unfolding ktrace_event
record_all-SameLabel [] k = record { magic = refl; version = refl }
record_all-SameLabel (c ∷ cs) k =
    let s : SameLabel (ktrace_event c.tick c.id c.args k) (record_all (c ∷ cs) k) =
      record_all-SameLabel cs (ktrace_event c.tick c.id c.args k) in
    record { magic = s.magic; version = s.version }

abbrev pub panic_call : ℕ → Call
panic_call tick = record { tick = tick; id = panic_event; args = 0 ∷ 0 ∷ 0 ∷ 0 ∷ [] }

-- The trace after the calls and a panic.
abbrev pub crashed : Ktrace → List Call → ℕ → Option (List ℕ) → Ktrace
crashed k cs tick msg = ktrace_panic_snapshot tick msg (record_all cs (init_fresh k))

-- A reboot keeps a trace with a crash.
init-crashed :
    (k : Ktrace) (cs : List Call) (tick : ℕ) (msg : Option (List ℕ))
    → ktrace_init (crashed k cs tick msg) ≡ crashed k cs tick msg
unfolding ktrace_init ktrace_panic_snapshot ktrace_event init_fresh
init-crashed k cs tick msg =
    let s : SameLabel (init_fresh k) (record_all cs (init_fresh k)) =
      record_all-SameLabel cs (init_fresh k) in
    let m : ((crashed k cs tick msg).magic == 1263817283) ≡ true = ground (arith, s.magic) in
    let v : ((crashed k cs tick msg).version == 1) ≡ true = ground (arith, s.version) in
    ap₂ (λ b d. if b && d then crashed k cs tick msg else init_fresh (crashed k cs tick msg)) m v

fresh-Traced : (k : Ktrace) → Traced (λ s. blank) 0 (init_fresh k)
unfolding init_fresh
fresh-Traced k = record { head = refl; held = λ s l r. absurd (omega arith) }

-- What `ktrace_replay` gives after a crash is the end of the history: after any calls of `ktrace_event` on
-- a fresh trace, fewer than 2 ^ 32 - 1 of them, then a panic and a reboot, it prints the last events, the
-- panic included, with their sequence numbers, the oldest first and without events of the identifier 0:
-- as many as asked for, but at most all of them and at most 4096.
pub ktrace_replay-crashed :
    (k : Ktrace) (cs : List Call) (tick count : ℕ) (msg : Option (List ℕ))
    → length cs + 1 < 2 ^ 32
    → (ktrace_replay count (ktrace_init (crashed k cs tick msg))).0
      ≡ recent
          (clipped count (length cs + 1))
          (length cs + 1)
          (λ s. if s == length cs then entry_for (panic_call tick) else history (λ i. blank) 0 cs s)
unfolding ktrace_replay ktrace_panic_snapshot
ktrace_replay-crashed k cs tick count msg small =
    let n : ℕ = length cs in
    let zero_n : 0 + n ≡ n = omega arith in
    let before : Ktrace = record_all cs (init_fresh k) in
    let ev : ℕ → Entry =
      λ s. if s == n then entry_for (panic_call tick) else history (λ i. blank) 0 cs s in
    let t : Traced (history (λ i. blank) 0 cs) n before =
      subst (λ m. Traced (history (λ i. blank) 0 cs) m before) zero_n
        (record_all-Traced cs (λ i. blank) 0 (init_fresh k) (omega arith) (fresh-Traced k)) in
    let u : Traced ev (n + 1) (ktrace_event tick panic_event (0 ∷ 0 ∷ 0 ∷ 0 ∷ []) before) =
      ktrace_event-Traced (history (λ i. blank) 0 cs) n before (panic_call tick) small t in
    let entries : ℕ → Entry = (crashed k cs tick msg).entries in
    ap (λ y. (ktrace_replay count y).0) (init-crashed k cs tick msg)
    ∙ ap (λ h. replay_loop (clipped count h) h entries) u.head
    ∙ replay_loop-recent (clipped count (n + 1)) (n + 1) ev entries small (ground arith)
        (ground arith) u.held
