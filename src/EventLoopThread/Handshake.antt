-- ===== src/EventLoopThread/Handshake.antt =====
-- src/eventloop_thread.cpp: what holds between the two threads.
use benet.Prelude.{ℕ, ◌≡◌, refl, sym, subst, Bool, true}
use benet.EventLoopThread.{
  begun, calling_back, storing, notifying, looping, leaving, idle, waiting, destructing, joining,
  EventLoopThread, init, start, test_loop, found, destruct, stop_loop, join, construct_loop,
  call_back, store_loop, notify, abort, leave_loop, reset_loop, Step, starts, tests, destructs,
  stops, joins, constructs, calls_back, stores, notifies, aborts, leaves, resets, Reach, here, next,
}
use benet.EventLoopThread.States.{
  Alive, Inv, Point, Body, tests_found, destructs_kept, stops_told, joins_ended, leaves_loop,
  resets_pointer, waiting_owner, starts_thread, of_worker, of_owner,
}

module _ (loop : ℕ) (others_stop : Bool) where
  tests-Inv :
      (t : EventLoopThread)
      → t.owner ≡ waiting
      → Inv loop others_stop t
      → Inv loop others_stop (test_loop t)
  unfolding test_loop
  tests-Inv t e inv =
      let (p, b) =
        tests_found loop others_stop t.worker t.loop t.called_back t.told
          (of_owner loop others_stop t waiting e inv) in
      record {
        point = subst (λ o. Point loop others_stop t.called_back (found t.loop o)) (sym e) p;
        body =
            subst (λ o. Body loop others_stop t.worker t.loop t.called_back t.told (found t.loop o))
              (sym e) b;
      }

  Step-Inv :
      {t u : EventLoopThread}
      → Step loop others_stop t u
      → Inv loop others_stop t
      → Inv loop others_stop u
  unfolding start destruct stop_loop join construct_loop call_back store_loop notify abort
      leave_loop reset_loop
  Step-Inv {t} (starts e) inv = record {
    point = tt;
    body =
        starts_thread loop others_stop t.worker t.loop t.called_back t.told
          (of_owner loop others_stop t idle e inv);
  }
  Step-Inv {t} (tests e) inv = tests-Inv t e inv
  Step-Inv {t} (destructs s) inv = record {
    point = tt;
    body = destructs_kept loop others_stop t.worker t.loop t.called_back t.told s inv.body;
  }
  Step-Inv {t} (stops e) inv = record {
    point = tt;
    body =
        stops_told loop others_stop t.worker t.loop t.called_back t.told
          (of_owner loop others_stop t destructing e inv);
  }
  Step-Inv {t} (joins e j) inv = record {
    point = tt;
    body =
        joins_ended loop others_stop t.loop t.called_back t.told j
          (of_owner loop others_stop t joining e inv);
  }
  Step-Inv {t} (constructs e) inv = record {
    point = inv.point;
    body = of_worker loop others_stop t begun e inv;
  }
  Step-Inv {t} (calls_back e) inv =
      let (n, f, u) = of_worker loop others_stop t calling_back e inv in
      record { point = waiting_owner loop others_stop true t.owner u; body = (n, f, u, refl) }
  Step-Inv {t} (stores e) inv =
      let (n, f, u, c) = of_worker loop others_stop t storing e inv in
      record { point = inv.point; body = (refl, c, subst (Alive t.told) (sym u) f) }
  Step-Inv {t} (aborts e s) inv =
      let (n, c, a) = of_worker loop others_stop t notifying e inv in
      record { point = inv.point; body = (n, c, a, s) }
  Step-Inv {t} (notifies e s) inv = record {
    point = inv.point;
    body = of_worker loop others_stop t notifying e inv;
  }
  Step-Inv {t} (leaves e s) inv = record {
    point = inv.point;
    body =
        leaves_loop loop others_stop t.loop t.called_back t.told t.owner s
          (of_worker loop others_stop t looping e inv);
  }
  Step-Inv {t} (resets e) inv =
      let (n, c, a) = of_worker loop others_stop t leaving e inv in
      record { point = inv.point; body = (refl, c, resets_pointer loop others_stop t.owner a) }

  Reach-Inv :
      {t u : EventLoopThread}
      → Reach loop others_stop t u
      → Inv loop others_stop t
      → Inv loop others_stop u
  Reach-Inv here inv = inv
  Reach-Inv (next r st) inv = Step-Inv st (Reach-Inv r inv)

  init-Inv : Inv loop others_stop init
  unfolding init
  init-Inv = record { point = tt; body = (refl, refl, tt) }

  -- The invariant, in every state that the two threads come to.
  pub reached : {t : EventLoopThread} → Reach loop others_stop init t → Inv loop others_stop t
  reached r = Reach-Inv r init-Inv
