-- ===== src/TimerQueue/Expiry.antt =====
-- src/timer_queue.cpp: the handler of the timerfd, with the client's callbacks.
use benet.Prelude.{
  ℕ, ◌+◌, ◌<◌, ◌≡◌, inl, inr, refl, ap, ◌∙◌, List, [], ◌∷◌, true, false, not, ◌&&◌, ◌||◌, none,
  ◌==◌, Bool-cases, ok, Returns, Returns->>=, Returns-ok, Returns-mono, subst,
}
use benet.TimerQueue.{
  TimerQueue, contains, Callbacks, act, run_expired, put_back, rearm, set_timerfd, next_time,
  handle_read,
}
use benet.TimerQueue.Entries.{Entry, entry_eq, has_entry, before, from}
use benet.TimerQueue.Order.{
  Distinct, Each-map, Each-both, Each-split, Distinct-split, from-IsSorted,
}
use benet.TimerQueue.Validity.{IsValid, Out, AllTimed, act-IsValid}
use benet.TimerQueue.Due.{due_at, from-first_is_later}
use benet.TimerQueue.Distinct.{valid_Distinct}
use benet.TimerQueue.PutBack.{comes_back, PutBack, put_back-PutBack}
use benet.TimerQueue.Expired.{
  Ran, none_left, runs_first, expired_at, left_at, before-expired_at, from-left_at,
}
use benet.TimerQueue.Arming.{Armed, rearm-Armed}

run_expired-IsValid :
    (callbacks : Callbacks) (ran expired : List Entry) (q : TimerQueue)
    → ((p : ℕ) (q' : TimerQueue) → AllTimed (callbacks p q'))
    → IsValid q
    → Out expired q
    → Returns
        (λ q'. IsValid q' × Out expired q' × Ran callbacks ran q q')
        (run_expired callbacks ran q)
unfolding run_expired
run_expired-IsValid callbacks [] expired q timed v out = (v, out, none_left)
run_expired-IsValid callbacks (e ∷ ran) expired q timed v out =
    let (q', (did, (v', out'))) =
      Returns-ok (act (callbacks e.1 q) q)
        (act-IsValid (callbacks e.1 q) q expired (timed e.1 q) v out) in
    rw did (
      Returns-mono _ _ (run_expired callbacks ran q')
        (run_expired-IsValid callbacks ran expired q' timed v' out')
        (λ r h. (h.0, h.1, runs_first did h.2)))

-- What the handler leaves, where the callbacks of the expired timers left `q₁`.
pub record Handled (now : ℕ) (expired : List Entry) (q₁ r : TimerQueue) : Type 0 where
  pub valid : IsValid r
  pub armed : Armed r
  pub members :
      (x : Entry) → has_entry x r.timers ≡ (comes_back now q₁ expired x || has_entry x q₁.timers)

-- The queue when the first callback runs: the timers that have not expired are left in it.
abbrev pub running : ℕ → TimerQueue → TimerQueue
running now q = record q {
  timers = left_at now q.timers;
  alarm = none;
  calling_expired_timers = true;
  canceling_timers = [];
}

-- The same, as the code takes the expired timers out.
abbrev taken_out : ℕ → TimerQueue → TimerQueue
taken_out now q = record q {
  timers = from (now, 0) q.timers;
  alarm = none;
  calling_expired_timers = true;
  canceling_timers = [];
}

taken_out-Out :
    (now : ℕ) (q : TimerQueue)
    → IsValid q
    → Distinct (before (now, 0) q.timers) × Out (before (now, 0) q.timers) (taken_out now q)
taken_out-Out now q v =
    let apart =
      Distinct-split (now, 0) q.timers
        (valid_Distinct q.heap q.next_address q.timers v.sorted v.keyed) in
    let known = (Each-split _ (now, 0) q.timers v.keyed).0 in
    (
      apart.0,
      Each-map (before (now, 0) q.timers) (λ e h. (h.0, h.1.1.0))
          (Each-both _ _ (before (now, 0) q.timers) apart.1 known),
    )

taken_out-IsValid : (now : ℕ) (q : TimerQueue) → IsValid q → IsValid (taken_out now q)
taken_out-IsValid now q v = record {
  sorted = from-IsSorted (now, 0) q.timers v.sorted;
  keyed = (Each-split _ (now, 0) q.timers v.keyed).1;
}

rearm_lem :
    (later : ℕ) (r : TimerQueue)
    → IsValid r
    → IsValid (rearm later r) × ((rearm later r).timers ≡ r.timers)
unfolding rearm set_timerfd
rearm_lem later r v = elim (Bool-cases (next_time r.heap r.timers == 0)) [
  | inl b ↦ rw b (record { sorted = v.sorted; keyed = v.keyed }, refl)
  | inr b ↦ rw b (record { sorted = v.sorted; keyed = v.keyed }, refl)
]

rearm-Handled :
    (now later : ℕ) (q₁ : TimerQueue) (expired : List Entry) (r : TimerQueue)
    → PutBack now (record q₁ { calling_expired_timers = false }) expired r
    → Handled now expired q₁ (rearm later r)
rearm-Handled now later q₁ expired r h = record {
  valid = (rearm_lem later r h.valid).0;
  armed = rearm-Armed later r h.valid;
  members = λ x.
      ap (has_entry x) (rearm_lem later r h.valid).1
      ∙ h.members x
      ∙ ap (λ b. b || has_entry x q₁.timers) (same expired x);
}
  where
    same :
        (es : List Entry) (x : Entry)
        → comes_back now (record q₁ { calling_expired_timers = false }) es x
          ≡ comes_back now q₁ es x
    same [] x = refl
    same (e ∷ es) x =
        ap
          (λ b.
            ((q₁.heap e.1).repeat
              && (not (contains e.1 q₁.canceling_timers)
                  && entry_eq (now + (q₁.heap e.1).interval, e.1) x))
            || b)
          (same es x)

-- The handler, by the lists that the code takes.
handled :
    (callbacks : Callbacks) (now later : ℕ) (q : TimerQueue)
    → ((p : ℕ) (q' : TimerQueue) → AllTimed (callbacks p q'))
    → IsValid q
    → 0 < now
    → due_at now q.timers ≡ false
    → Returns
        (λ r.
          (q₁ : TimerQueue) × Ran callbacks (before (now, 0) q.timers) (taken_out now q) q₁
          × Handled now (before (now, 0) q.timers) q₁ r)
        (handle_read callbacks now later q)
unfolding handle_read
handled callbacks now later q timed v pos none_due =
    let expired = before (now, 0) q.timers in
    let (apart, out) = taken_out-Out now q v in
    let (q₁, (ran, (v₁, out₁, did))) =
      Returns-ok (run_expired callbacks expired (taken_out now q)) (
        run_expired-IsValid callbacks expired expired (taken_out now q) timed
          (taken_out-IsValid now q v) out) in
    rw (from-first_is_later now q.timers none_due, ran)
      (Returns->>= _ _ (put_back now expired (record q₁ { calling_expired_timers = false }))
        (λ q₂. ok (rearm later q₂))
        (put_back-PutBack now expired (record q₁ { calling_expired_timers = false }) pos apart
          (record { sorted = v₁.sorted; keyed = v₁.keyed }) out₁)
        (λ r h. (q₁, did, rearm-Handled now later q₁ expired r h)))

-- In a valid queue, with no timer due exactly at the time `now` that the handler reads, which is not
-- zero, and callbacks that add no timer at the time zero, the handler returns. The callbacks of
-- exactly the timers that expire before `now` have run, each once, in the order of the set and with
-- these timers out of it, and the queue is valid again: beside the timers that the callbacks left,
-- exactly those that ran, repeat and were not cancelled meanwhile are in it, each at its interval
-- from `now`; and the timerfd goes off no later than the first of them all is due.
pub handle_read-Handled :
    (callbacks : Callbacks) (now later : ℕ) (q : TimerQueue)
    → ((p : ℕ) (q' : TimerQueue) → AllTimed (callbacks p q'))
    → IsValid q
    → 0 < now
    → due_at now q.timers ≡ false
    → Returns
        (λ r.
          (q₁ : TimerQueue) × Ran callbacks (expired_at now q.timers) (running now q) q₁
          × Handled now (expired_at now q.timers) q₁ r)
        (handle_read callbacks now later q)
handle_read-Handled callbacks now later q timed v pos none_due =
    Returns-mono _ _ (handle_read callbacks now later q)
      (handled callbacks now later q timed v pos none_due)
      (λ r (q₁, did, h). (
        q₁,
        subst (λ es. Ran callbacks es (running now q) q₁) (before-expired_at now q.timers v.sorted)
            (subst
              (λ ts.
                Ran callbacks (before (now, 0) q.timers) (record (running now q) { timers = ts })
                  q₁)
              (from-left_at now q.timers v.sorted) did),
        subst (λ es. Handled now es q₁ r) (before-expired_at now q.timers v.sorted) h,
      ))
