-- ===== src/BackgroundSync/Stopping.antt =====
-- A stopped worker comes to an end.
use congine.BackgroundSync.{
  Thread, no_thread, started, begin_pass, waiting, syncing, over, Worker, init, is_alive,
  is_running, enter_loop, start, stop, thread_step, Event, starts, stops, runs, after_event, after,
}
use congine.Prelude.{
  ℕ, suc, ◌+◌, ◌-◌, if◌then◌else◌, sym, ap, ◌≤◌, ◌≡◌, refl, ◌∙◌, subst, Bool, true, false, List, [],
  ◌∷◌, arith, Bool-cases, inl, inr,
}

-- the steps that the thread takes
abbrev pub own_steps : List Event → ℕ
own_steps [] = 0
own_steps (runs dies ∷ es) = suc (own_steps es)
own_steps (_ ∷ es) = own_steps es

-- the steps that a thread still takes once the stop is requested
abbrev rank : Thread → ℕ
rank no_thread = 0
rank started = 3
rank waiting = 1
rank syncing = 2
rank over = 0

abbrev pub first_pass : Thread → Bool → ℕ
first_pass started true = 1
first_pass started false = 0
first_pass _ _ = 0

Flagged : Worker → Type 0
Flagged w = w.closed ≡ true → w.stop_event ≡ true

event-Flagged : (e : Event) (w : Worker) → Flagged w → Flagged (after_event e w)
unfolding Flagged start enter_loop stop thread_step
event-Flagged (starts startable) w h = λ c. ground (arith, h, c)
event-Flagged stops w h = λ c. ground (arith, h, c)
event-Flagged (runs dies) w h = go w.thread
  where
    go : (t : Thread) → Flagged (thread_step dies t w)
    go no_thread = h
    go over = h
    go started = λ c. ground (arith, h, c)
    go waiting = λ c. ground (arith, h, c)
    go syncing = λ c. ground (arith, h, c)

after-Flagged : (es : List Event) (w : Worker) → Flagged w → Flagged (after es w)
after-Flagged [] w h = h
after-Flagged (e ∷ es) w h = after-Flagged es (after_event e w) (event-Flagged e w h)

-- A stopped worker, with the steps that its thread still takes at most.
record Stopped (n : ℕ) (w : Worker) : Type 0 where
  is_closed : w.closed ≡ true
  is_flagged : w.stop_event ≡ true
  left : rank w.thread ≤ n

rank-le : (t : Thread) → rank t ≤ 3
rank-le no_thread = omega arith
rank-le started = omega arith
rank-le waiting = omega arith
rank-le syncing = omega arith
rank-le over = omega arith

stop-Stopped : (w : Worker) → Flagged w → Stopped 3 (stop w)
unfolding Flagged stop
stop-Stopped w h = elim (Bool-cases w.closed) [
  | inl e ↦ rw (e) (record { is_closed = refl; is_flagged = h e; left = rank-le w.thread })
  | inr e ↦ rw (e) (record { is_closed = refl; is_flagged = refl; left = rank-le w.thread })
]

start-stopped : (startable : Bool) (w : Worker) → w.closed ≡ true → (start startable w).1 ≡ w
unfolding start
start-stopped startable w e = rw (e) refl

stop-stopped : (w : Worker) → w.closed ≡ true → stop w ≡ w
unfolding stop
stop-stopped w e = rw (e) refl

-- the pass that a started thread begins in any case
abbrev pub owed : Worker → ℕ
owed w = first_pass w.thread w.run_immediately

Runs : (n : ℕ) (before now : Worker) → Type 0
Runs n before now = Stopped n now × (now.passes + owed now ≡ before.passes + owed before)

idle : {t : Thread} (n : ℕ) (w : Worker) → w.thread ≡ t → rank t ≤ 0 → rank w.thread ≤ n
idle n w e le = subst (λ t. rank t ≤ n) (sym e) (omega (arith, le))

none_due :
    {t : Thread} (w : Worker)
    → w.thread ≡ t
    → first_pass t w.run_immediately ≡ 0
    → w.passes + 0 ≡ w.passes + owed w
none_due w e none = ap (λ n. w.passes + n) (sym (ap (λ t. first_pass t w.run_immediately) e ∙ none))

-- a step of a stopped worker's thread
run-Stopped :
    (dies : Bool) (t : Thread) (w : Worker) (n : ℕ)
    → w.closed ≡ true
    → w.stop_event ≡ true
    → rank t ≤ suc n
    → w.thread ≡ t
    → Runs n w (thread_step dies t w)
unfolding Runs thread_step enter_loop
run-Stopped dies started w n c f le o =
    subst
      (λ t.
        Stopped n (enter_loop w)
        × ((enter_loop w).passes + owed (enter_loop w) ≡ w.passes + first_pass t w.run_immediately))
      (sym o) (entered w.run_immediately)
  where
    entered :
        (b : Bool)
        → Stopped n (if b then begin_pass w else record w { thread = waiting })
          × ((if b then begin_pass w else record w { thread = waiting }).passes
                + owed (if b then begin_pass w else record w { thread = waiting })
              ≡ w.passes + first_pass started b)
    entered true = (record { is_closed = c; is_flagged = f; left = omega (arith, le) }, omega arith)
    entered false = (record { is_closed = c; is_flagged = f; left = omega (arith, le) }, refl)
run-Stopped dies no_thread w n c f le o =
    (record { is_closed = c; is_flagged = f; left = idle n w o (omega arith) }, refl)
run-Stopped dies over w n c f le o =
    (record { is_closed = c; is_flagged = f; left = idle n w o (omega arith) }, refl)
run-Stopped dies waiting w n c f le o =
    rw (f) (record { is_closed = c; is_flagged = refl; left = omega arith }, none_due w o refl)
run-Stopped true syncing w n c f le o =
    (record { is_closed = c; is_flagged = f; left = omega arith }, none_due w o refl)
run-Stopped false syncing w n c f le o =
    (record { is_closed = c; is_flagged = f; left = omega (arith, le) }, none_due w o refl)

-- the steps that are left after an event
left_after : Event → ℕ → ℕ
left_after (runs dies) n = n - 1
left_after _ n = n

event-Stopped :
    (e : Event) (w : Worker) (n : ℕ) → Stopped n w → Runs (left_after e n) w (after_event e w)
unfolding Runs left_after
event-Stopped (starts startable) w n h = rw (start-stopped startable w h.is_closed) (h, refl)
event-Stopped stops w n h = rw (stop-stopped w h.is_closed) (h, refl)
event-Stopped (runs dies) w n h =
    run-Stopped dies w.thread w (n - 1) h.is_closed h.is_flagged (omega (arith, h.left)) refl

minus_zero : (n : ℕ) → n ≡ n - 0
minus_zero n = omega arith

after-Stopped :
    (es : List Event) (w : Worker) (n : ℕ) → Stopped n w → Runs (n - own_steps es) w (after es w)
unfolding Runs left_after
after-Stopped [] w n h = (subst (λ k. Stopped k w) (minus_zero n) h, refl)
after-Stopped (e ∷ es) w n h =
    let (stopped, kept) = event-Stopped e w n h in
    let (ends, same) = after-Stopped es (after_event e w) (left_after e n) stopped in
    (subst (λ k. Stopped k (after (e ∷ es) w)) (count e) ends, same ∙ kept)
  where
    count : (e : Event) → left_after e n - own_steps es ≡ n - own_steps (e ∷ es)
    count (starts startable) = refl
    count stops = refl
    count (runs dies) = omega arith

not_alive : (t : Thread) → rank t ≤ 0 → is_alive t ≡ false
not_alive no_thread le = refl
not_alive over le = refl
not_alive started le = ground (arith, le)
not_alive waiting le = ground (arith, le)
not_alive syncing le = ground (arith, le)

not_owed : (t : Thread) (b : Bool) → rank t ≤ 0 → first_pass t b ≡ 0
not_owed no_thread b le = refl
not_owed over b le = refl
not_owed waiting b le = refl
not_owed syncing b le = refl
not_owed started b le = omega (arith, le)

no_more : (w : Worker) → rank w.thread ≤ 0 → w.passes ≡ w.passes + owed w
no_more w le = omega (arith, not_owed w.thread w.run_immediately le)

abbrev pub Ended : (before now : Worker) → Type 0
Ended before now = (is_running now ≡ false) × (now.passes ≡ before.passes + owed before)

pub stopped-ends :
    (run_immediately : Bool) (before more : List Event)
    → 3 ≤ own_steps more
    → Ended
        (after before (init run_immediately))
        (after (stops ∷ more) (after before (init run_immediately)))
unfolding Runs Flagged init is_running stop
stopped-ends run_immediately before more enough =
    let w = after before (init run_immediately) in
    let flagged : Flagged w =
      after-Flagged before (init run_immediately) (λ c. ground (arith, c)) in
    let (ends, same) = after-Stopped more (stop w) 3 (stop-Stopped w flagged) in
    (
      not_alive (after (stops ∷ more) w).thread (omega (arith, ends.left, enough)),
      no_more (after (stops ∷ more) w) (omega (arith, ends.left, enough)) ∙ (same ∙ passes-stop w),
    )
  where
    passes-stop : (w : Worker) → (stop w).passes + owed (stop w) ≡ w.passes + owed w
    passes-stop w = elim (Bool-cases w.closed) [ inl e ↦ rw (e) refl | inr e ↦ rw (e) refl ]
