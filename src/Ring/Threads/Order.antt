-- ===== src/Ring/Threads/Order.antt =====
-- The invariant of the two threads on the ring of cpworker/src/ring_buffer.c.
use cloud_probe.Prelude.{
  ℕ, ◌+◌, ◌%◌, ◌≤◌, ◌<◌, ◌≡◌, ◌≢◌, refl, sym, ap, ◌∙◌, arith, List, [], ◌∷◌, ◌++◌, append_assoc,
  append-nil, get_or, set, length-set, get_or-set_self, get_or-set_ne,
}
use mathlib.Core.Path.{subst}
use cloud_probe.Ring.{SpscRing}
use cloud_probe.Ring.Window.{
  after, mod-after, after-lt, dist, dist-after_head, dist-after_head_full, dist-after_tail,
  dist-eq-zero_iff, dist-lt, window_end, window-set_past,
}
use cloud_probe.Ring.Refine.{IsValid, contents, create-IsValid}
use cloud_probe.Ring.Threads.{
  Producer, Consumer, Produce, Consume, System, Step, Reach, initial, produce, consume, start,
  later,
}

module _ {A : Type 0} (null : A) where
  -- What the locals of the capture thread say about the ring.
  abbrev pub ProducerKnows : SpscRing A → Producer A → Type 0
  ProducerKnows r Producer.idle = Unit {0}
  ProducerKnows r (Producer.saw_head x h) = h ≡ r.head
  ProducerKnows r (Producer.saw_tail x h t) =
      (h ≡ r.head) × (t < r.size) × (dist r.size r.tail r.head ≤ dist r.size t r.head)
  ProducerKnows r (Producer.stored x h) =
      (h ≡ r.head) × (after r.size r.head ≢ r.tail) × (get_or r.buf r.head null ≡ x)

  abbrev pub ConsumerKnows : SpscRing A → Consumer A → Type 0
  ConsumerKnows r Consumer.idle = Unit {0}
  ConsumerKnows r (Consumer.saw_head h) =
      (h < r.size) × (dist r.size r.tail h ≤ dist r.size r.tail r.head)
  ConsumerKnows r (Consumer.saw_tail h t) =
      (t ≡ r.tail) × (h < r.size) × (dist r.size r.tail h ≤ dist r.size r.tail r.head)
  ConsumerKnows r (Consumer.fetched t x) =
      (t ≡ r.tail) × (r.tail ≢ r.head) × (get_or r.buf r.tail null ≡ x)

  pub record Inv (s : System A) : Type 0 where
    pub valid : IsValid s.ring
    pub producer : ProducerKnows s.ring s.producer
    pub consumer : ConsumerKnows s.ring s.consumer
    pub order : s.sent ≡ s.received ++ contents null s.ring

  -- What a step of the capture thread does to the ring.
  record Produced (r r' : SpscRing A) (p' : Producer A) (out : List A) : Type 0 where
    valid : IsValid r'
    knows : ProducerKnows r' p'
    adds : contents null r' ≡ contents null r ++ out
    others : (c : Consumer A) → ConsumerKnows r c → ConsumerKnows r' c

  -- The test of `spsc_ring_push` on a tail read earlier finds room for the present tail too.
  room_still :
      (r : SpscRing A) (h t : ℕ)
      → IsValid r
      → ProducerKnows r (Producer.saw_tail (get_or r.buf h null) h t)
      → (h + 1) % r.size ≢ t
      → after r.size r.head ≢ r.tail
  room_still r h t v (e, lt, le) ne full = ne (rw e (mod-after r.size r.head v.head_in ∙ caught))
    where
      stale : dist r.size t r.head + 1 ≡ r.size
      stale = omega (
        arith,
        le,
        dist-lt r.size t r.head lt v.head_in,
        (dist-after_head_full r.size r.tail r.head v.tail_in v.head_in).0 full,
      )

      caught : after r.size r.head ≡ t
      caught = (dist-after_head_full r.size t r.head lt v.head_in).1 stale

  store_others :
      (r : SpscRing A) (x : A) (c : Consumer A)
      → ConsumerKnows r c
      → ConsumerKnows (record r { buf = set r.buf r.head x }) c
  store_others r x Consumer.idle k = k
  store_others r x (Consumer.saw_head h) k = k
  store_others r x (Consumer.saw_tail h t) k = k
  store_others r x (Consumer.fetched t y) (e, ne, same) =
      (e, ne, get_or-set_ne r.buf r.head r.tail x null (λ q. ne (sym q)) ∙ same)

  store_Produced :
      (r : SpscRing A) (x : A)
      → IsValid r
      → after r.size r.head ≢ r.tail
      → Produced r (record r { buf = set r.buf r.head x }) (Producer.stored x r.head) []
  store_Produced r x v room = record {
    valid = ground (arith, length-set r.buf r.head x);
    knows = (refl, room, get_or-set_self r.buf r.head x null (ground arith));
    adds =
        window-set_past null r.size r.buf x r.head r.tail _ v.head_in v.tail_in (omega arith)
        ∙ sym (append-nil _);
    others = store_others r x;
  }

  publish_others :
      (r : SpscRing A) (c : Consumer A)
      → IsValid r
      → after r.size r.head ≢ r.tail
      → ConsumerKnows r c
      → ConsumerKnows (record r { head = after r.size r.head }) c
  publish_others r Consumer.idle v room k = k
  publish_others r (Consumer.saw_head h) v room (lt, le) =
      (lt, omega (arith, dist-after_head r.size r.tail r.head v.tail_in v.head_in room))
  publish_others r (Consumer.saw_tail h t) v room (e, lt, le) =
      (e, lt, omega (arith, dist-after_head r.size r.tail r.head v.tail_in v.head_in room))
  publish_others r (Consumer.fetched t y) v room (e, ne, same) = (e, (λ q. room (sym q)), same)

  publish_Produced :
      (r : SpscRing A) (x : A)
      → IsValid r
      → ProducerKnows r (Producer.stored x r.head)
      → Produced r (record r { head = after r.size r.head }) Producer.idle (x ∷ [])
  publish_Produced r x v (e, room, same) = record {
    valid = ground (arith, after-lt r.size r.head r.head v.head_in v.head_in);
    knows = tt;
    adds =
        rw (dist-after_head r.size r.tail r.head v.tail_in v.head_in room, ← same)
          (window_end null r.size r.buf r.head r.tail _ v.head_in v.tail_in refl);
    others = λ c. publish_others r c v room;
  }

  Produce-Produced :
      {r r' : SpscRing A} {p p' : Producer A} {out : List A}
      → Produce r p r' p' out
      → IsValid r
      → ProducerKnows r p
      → Produced r r' p' out
  Produce-Produced (Produce.load_head x) v k = record {
    valid = v;
    knows = refl;
    adds = sym (append-nil _);
    others = λ c h. h;
  }
  Produce-Produced Produce.load_tail v k = record {
    valid = v;
    knows = (k, v.tail_in, omega arith);
    adds = sym (append-nil _);
    others = λ c h. h;
  }
  Produce-Produced (Produce.refuse e) v k = record {
    valid = v;
    knows = tt;
    adds = sym (append-nil _);
    others = λ c h. h;
  }
  Produce-Produced {r} (Produce.store {x} {h} {t} ne) v k =
      rw k.0 (store_Produced r x v (room_still r h t v k ne))
  Produce-Produced {r} (Produce.publish {x}) v k =
      rw (k.0, mod-after r.size r.head v.head_in) (publish_Produced r x v (refl, k.1, k.2))

  -- What a step of the output thread does to the ring.
  record Consumed (r r' : SpscRing A) (c' : Consumer A) (out : List A) : Type 0 where
    valid : IsValid r'
    knows : ConsumerKnows r' c'
    takes : contents null r ≡ out ++ contents null r'
    others : (p : Producer A) → ProducerKnows r p → ProducerKnows r' p

  release_others :
      (r : SpscRing A) (p : Producer A)
      → IsValid r
      → r.tail ≢ r.head
      → ProducerKnows r p
      → ProducerKnows (record r { tail = after r.size r.tail }) p
  release_others r Producer.idle v ne k = k
  release_others r (Producer.saw_head x h) v ne k = k
  release_others r (Producer.saw_tail x h t) v ne (e, lt, le) =
      (e, lt, omega (arith, dist-after_tail r.size r.tail r.head v.tail_in v.head_in ne))
  release_others r (Producer.stored x h) v ne (e, room, same) = (e, ground arith, same)

  release_Consumed :
      (r : SpscRing A) (x : A)
      → IsValid r
      → r.tail ≢ r.head
      → get_or r.buf r.tail null ≡ x
      → Consumed r (record r { tail = after r.size r.tail }) Consumer.idle (x ∷ [])
  release_Consumed r x v ne same = record {
    valid = ground (arith, after-lt r.size r.tail r.head v.tail_in v.head_in);
    knows = tt;
    takes = rw (dist-after_tail r.size r.tail r.head v.tail_in v.head_in ne, same);
    others = λ p. release_others r p v ne;
  }

  -- A head seen ahead of the tail shows that the ring holds an entry.
  filled :
      (r : SpscRing A) (h : ℕ)
      → IsValid r
      → h < r.size
      → dist r.size r.tail h ≤ dist r.size r.tail r.head
      → r.tail ≢ h
      → r.tail ≢ r.head
  filled r h v lt le ne e = ne (
      (dist-eq-zero_iff r.size r.tail h v.tail_in lt).0
        (omega (arith, le, (dist-eq-zero_iff r.size r.tail r.head v.tail_in v.head_in).1 e)))

  Consume-Consumed :
      {r r' : SpscRing A} {c c' : Consumer A} {out : List A}
      → Consume null r c r' c' out
      → IsValid r
      → ConsumerKnows r c
      → Consumed r r' c' out
  Consume-Consumed Consume.load_head v k = record {
    valid = v;
    knows = (v.head_in, omega arith);
    takes = refl;
    others = λ p h. h;
  }
  Consume-Consumed Consume.load_tail v k = record {
    valid = v;
    knows = (refl, k.0, k.1);
    takes = refl;
    others = λ p h. h;
  }
  Consume-Consumed (Consume.refuse e) v k = record {
    valid = v;
    knows = tt;
    takes = refl;
    others = λ p h. h;
  }
  Consume-Consumed {r} (Consume.fetch {h} {t} ne) v (e, lt, le) = record {
    valid = v;
    knows = (e, filled r h v lt le (λ q. ne (e ∙ q)), ap (λ i. get_or r.buf i null) (sym e));
    takes = refl;
    others = λ p h. h;
  }
  Consume-Consumed {r} (Consume.release {x}) v k =
      rw (k.0, mod-after r.size r.tail v.tail_in) (release_Consumed r x v k.1 k.2)

  initial-Inv : (size : ℕ) → 0 < size → Inv (initial null size)
  initial-Inv size h =
      let (v, empty) = create-IsValid null size h in
      record { valid = v; producer = tt; consumer = tt; order = sym empty }

  Step-Inv : {s t : System A} → Step null s t → Inv s → Inv t
  Step-Inv {s} (produce {r} {p} {out} mv) inv =
      let made = Produce-Produced mv inv.valid inv.producer in
      record {
        valid = made.valid;
        producer = made.knows;
        consumer = made.others s.consumer inv.consumer;
        order =
            ap (λ l. l ++ out) inv.order
            ∙ append_assoc s.received (contents null s.ring) out
            ∙ ap (λ l. s.received ++ l) (sym made.adds);
      }
  Step-Inv {s} (consume {r} {c} {out} mv) inv =
      let took = Consume-Consumed mv inv.valid inv.consumer in
      record {
        valid = took.valid;
        producer = took.others s.producer inv.producer;
        consumer = took.knows;
        order =
            inv.order
            ∙ ap (λ l. s.received ++ l) took.takes
            ∙ sym (append_assoc s.received out (contents null r));
      }

  pub Reach-Inv : {size : ℕ} {s : System A} → 0 < size → Reach null size s → Inv s
  Reach-Inv {size} h start = initial-Inv size h
  Reach-Inv h (later r st) = Step-Inv st (Reach-Inv h r)

  -- However the steps of the two threads interleave on a ring of positive size, the entries taken
  -- so far, followed by the entries from the tail to the head, are the entries published so far, in
  -- order: none is lost, repeated, reordered or made up. The indices stay in the buffer.
  pub Reach-fifo :
      {size : ℕ} {s : System A}
      → 0 < size
      → Reach null size s
      → (s.sent ≡ s.received ++ contents null s.ring) × IsValid s.ring
  Reach-fifo h r = let inv = Reach-Inv h r in (inv.order, inv.valid)

  -- When the capture thread is past its test for room and the output thread past its test for an
  -- entry, they are at different slots: the store and the fetch do not race.
  pub Reach-no_race :
      {size h t u : ℕ} {x : A} {s : System A}
      → 0 < size
      → Reach null size s
      → s.producer ≡ Producer.saw_tail x h t
      → (h + 1) % s.ring.size ≢ t
      → (s.consumer ≡ Consumer.saw_tail u s.ring.tail) × (s.ring.tail ≢ u)
      → h ≢ s.ring.tail
  Reach-no_race {h} {t} {u} {x} {s} pos r at_store room (at_fetch, some_entry) e =
      filled s.ring u inv.valid seen.1 seen.2 some_entry (sym e ∙ knows.0)
    where
      inv : Inv s
      inv = Reach-Inv pos r

      knows : ProducerKnows s.ring (Producer.saw_tail x h t)
      knows = subst (ProducerKnows s.ring) at_store inv.producer

      seen : ConsumerKnows s.ring (Consumer.saw_tail u s.ring.tail)
      seen = subst (ConsumerKnows s.ring) at_fetch inv.consumer
