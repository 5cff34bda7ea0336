-- ===== src/Ring/Examples.antt =====
-- A ring of three slots.
use cloud_probe.Prelude.{ℕ, ◌≡◌, ◌≢◌, refl, List, [], ◌∷◌, ◌++◌, arith}
use cloud_probe.Ring.{SpscRing, spsc_ring_create}
use cloud_probe.Ring.Refine.{IsValid, Op, push, pop, run, queue_run, contents, run_refines}
use cloud_probe.Ring.Threads.{
  Producer, Consumer, System, produce, consume, Reach, start, later, Produce, Consume,
}
use cloud_probe.Ring.Threads.Order.{Reach-fifo, Reach-no_race}

-- The head has come round to the first slot.
abbrev two_held : SpscRing ℕ
two_held = record { buf = 0 ∷ 7 ∷ 8 ∷ []; size = 3; head = 0; tail = 1 }

two_held-IsValid : IsValid two_held
two_held-IsValid = record { room = refl; head_in = omega arith; tail_in = omega arith }

abbrev some_ops : List (Op ℕ)
some_ops = push 9 ∷ pop ∷ push 9 ∷ pop ∷ pop ∷ pop ∷ []

run_refines_example : run two_held some_ops ≡ queue_run 3 (contents 0 two_held) some_ops
run_refines_example = run_refines 0 some_ops two_held two_held-IsValid

-- The capture thread publishes 5 and comes to its next test; the output thread has seen the entry.
abbrev both_midway : System ℕ
both_midway = record {
  ring = record { buf = 5 ∷ 0 ∷ 0 ∷ []; size = 3; head = 1; tail = 0 };
  producer = Producer.saw_tail 6 1 0;
  consumer = Consumer.saw_tail 1 0;
  sent = 5 ∷ [];
  received = [];
}

both_midway-Reach : Reach 0 3 both_midway
unfolding spsc_ring_create
both_midway-Reach =
    later
      (later
        (later
          (later
            (later
              (later
                (later (later start (produce (Produce.load_head 5))) (produce Produce.load_tail))
                (produce (Produce.store (omega arith))))
              (produce Produce.publish))
            (produce (Produce.load_head 6)))
          (produce Produce.load_tail))
        (consume Consume.load_head))
      (consume Consume.load_tail)

Reach-fifo_example :
    (both_midway.sent ≡ both_midway.received ++ contents 0 both_midway.ring)
    × IsValid both_midway.ring
Reach-fifo_example = Reach-fifo 0 (omega arith) both_midway-Reach

Reach-no_race_example : 1 ≢ both_midway.ring.tail
Reach-no_race_example =
    Reach-no_race 0 (omega arith) both_midway-Reach refl (omega arith) (refl, omega arith)
