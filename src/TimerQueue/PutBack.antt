-- ===== src/TimerQueue/PutBack.antt =====
-- src/timer_queue.cpp: the handler puts the repeating timers back.
use benet.Prelude.{
  ℕ, ◌+◌, ◌<◌, ◌≡◌, inl, inr, refl, sym, ap, ◌∙◌, List, [], ◌∷◌, Bool, true, false, not, ◌&&◌, ◌||◌,
  Bool-cases, arith, ◌>>=◌, Returns, Returns-mono,
}
use benet.Reactor.{put}
use benet.TimerQueue.{TimerQueue, contains, restart, insert, put_back}
use benet.TimerQueue.Entries.{Entry, entry_eq, has_entry}
use benet.TimerQueue.Order.{
  Absent, Distinct, place, Each-map, Each-both, place-Each, place-IsSorted,
}
use benet.TimerQueue.Order.{has_entry-place}
use benet.TimerQueue.Validity.{Keyed-put, IsValid, Out, insert_ok}
use benet.Reactor.Equations.{put_self, put_other}

-- Some timer of the list repeats, was not cancelled, and is back as the entry `x`.
abbrev pub comes_back : ℕ → TimerQueue → List Entry → Entry → Bool
comes_back now q [] x = false
comes_back now q (e ∷ expired) x =
    ((q.heap e.1).repeat
      && (not (contains e.1 q.canceling_timers) && entry_eq (now + (q.heap e.1).interval, e.1) x))
    || comes_back now q expired x

-- What putting back leaves: the entries that were there, and those that come back.
pub record PutBack (now : ℕ) (q : TimerQueue) (expired : List Entry) (r : TimerQueue) : Type 0 where
  pub valid : IsValid r
  pub members :
      (x : Entry) → has_entry x r.timers ≡ (comes_back now q expired x || has_entry x q.timers)

-- The queue with one timer back.
abbrev pub with_again : ℕ → Entry → TimerQueue → TimerQueue
with_again now e q =
    let t = restart now (q.heap e.1) in
    record q { heap = put q.heap e.1 t; timers = place (t.expiration, e.1) q.timers }

comes_back-again :
    (now : ℕ) (e x : Entry) (q : TimerQueue) (expired : List Entry)
    → Absent e.1 expired
    → comes_back now (with_again now e q) expired x ≡ comes_back now q expired x
comes_back-again now e x q [] out = refl
comes_back-again now e x q (y ∷ ys) out =
    rw
      (
        put_other q.heap e.1 y.1 (restart now (q.heap e.1)) (λ s. out.0 (sym s)),
        comes_back-again now e x q ys out.1,
      )
      refl

with_again-IsValid :
    (now : ℕ) (e : Entry) (q : TimerQueue)
    → 0 < now
    → (q.heap e.1).repeat ≡ true
    → IsValid q
    → Absent e.1 q.timers
    → e.1 < q.next_address
    → IsValid (with_again now e q)
unfolding restart
with_again-IsValid now e q pos repeats v out old = record {
  sorted = place-IsSorted ((restart now (q.heap e.1)).expiration, e.1) q.timers out v.sorted;
  keyed =
      place-Each _ ((restart now (q.heap e.1)).expiration, e.1) q.timers
        (
          ap (λ c. c.expiration) (put_self q.heap e.1 (restart now (q.heap e.1))),
          (old, rw repeats (omega arith)),
        )
        (Keyed-put q.heap q.next_address e.1 (restart now (q.heap e.1)) q.timers out v.keyed);
}

with_again-Out :
    (now : ℕ) (e : Entry) (q : TimerQueue) (expired : List Entry)
    → Absent e.1 expired
    → Out expired q
    → Out expired (with_again now e q)
with_again-Out now e q expired others out =
    Each-map expired
      (λ y h. (
        place-Each _ ((restart now (q.heap e.1)).expiration, e.1) q.timers (λ s. h.0 (sym s)) h.1.0,
        h.1.1,
      ))
      (Each-both _ _ expired others out)

again_members : (eq cb has : Bool) → (cb || (eq || has)) ≡ (((true && (true && eq)) || cb) || has)
again_members eq cb has = ground arith

again_ok :
    (now : ℕ) (e : Entry) (q : TimerQueue) (expired : List Entry)
    → Absent e.1 q.timers
    → (insert e.1 (record q { heap = put q.heap e.1 (restart now (q.heap e.1)) }) >>= λ r.
        put_back now expired r.1)
      ≡ put_back now expired (with_again now e q)
again_ok now e q expired out =
    rw
      (
        insert_ok e.1 (record q { heap = put q.heap e.1 (restart now (q.heap e.1)) }) out,
        put_self q.heap e.1 (restart now (q.heap e.1)),
      )
      refl

again_lem :
    (now : ℕ) (e : Entry) (q : TimerQueue) (expired : List Entry) (r : TimerQueue) (x : Entry)
    → (q.heap e.1).repeat ≡ true
    → contains e.1 q.canceling_timers ≡ false
    → Absent e.1 expired
    → has_entry x r.timers
      ≡ (comes_back now (with_again now e q) expired x || has_entry x (with_again now e q).timers)
    → has_entry x r.timers ≡ (comes_back now q (e ∷ expired) x || has_entry x q.timers)
unfolding restart
again_lem now e q expired r x repeats kept others h =
    h
    ∙ ap (λ b. b || has_entry x (with_again now e q).timers)
        (comes_back-again now e x q expired others)
    ∙ ap (λ b. comes_back now q expired x || b)
        (has_entry-place x ((restart now (q.heap e.1)).expiration, e.1) q.timers)
    ∙ rw (repeats, kept)
        (again_members (entry_eq (now + (q.heap e.1).interval, e.1) x) (comes_back now q expired x)
          (has_entry x q.timers))

-- Putting back succeeds on timers that are out of the set.
pub put_back-PutBack :
    (now : ℕ) (expired : List Entry) (q : TimerQueue)
    → 0 < now
    → Distinct expired
    → IsValid q
    → Out expired q
    → Returns (PutBack now q expired) (put_back now expired q)
unfolding put_back
put_back-PutBack now [] q pos d v out = record { valid = v; members = λ x. refl }
put_back-PutBack now (e ∷ es) q pos d v out = elim (Bool-cases (q.heap e.1).repeat) [
  | inr once ↦ rw once (
      Returns-mono _ _ (put_back now es q) (put_back-PutBack now es q pos d.1 v out.1)
        (λ r h. record { valid = h.valid; members = λ x. rw once (h.members x) }))
  | inl repeats ↦ elim (Bool-cases (contains e.1 q.canceling_timers)) [
    | inl cancelled ↦
        rw (repeats, cancelled)
          (Returns-mono _ _ (put_back now es q) (put_back-PutBack now es q pos d.1 v out.1) (λ r h.
            record { valid = h.valid; members = λ x. rw (repeats, cancelled) (h.members x) }))
    | inr kept ↦
        simp (repeats, kept, again_ok now e q es out.0.0)
          (Returns-mono _ _ (put_back now es (with_again now e q))
            (put_back-PutBack now es (with_again now e q) pos d.1
              (with_again-IsValid now e q pos repeats v out.0.0 out.0.1)
              (with_again-Out now e q es d.0 out.1))
            (λ r h. record {
              valid = h.valid;
              members = λ x. again_lem now e q es r x repeats kept d.0 (h.members x);
            }))
  ]
]
