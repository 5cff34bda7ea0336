-- ===== src/Ring/Threads.antt =====
-- Two threads on one ring: `spsc_ring_push` and `spsc_ring_pop` as the loads, stores and tests that
-- they make one at a time, interleaved in any order. Memory is taken as sequentially consistent,
-- which the acquire loads and release stores give for the values that cross between the threads.
pub mod Order
use cloud_probe.Prelude.{ℕ, ◌+◌, ◌%◌, ◌≡◌, ◌≢◌, List, [], ◌∷◌, ◌++◌, get_or, set}
use cloud_probe.Ring.{SpscRing, spsc_ring_create}

-- Where the capture thread stands in `spsc_ring_push`, with its locals.
pub data Producer (A : Type 0) : Type 0 where
  idle : Producer A
  saw_head : A → ℕ → Producer A
  saw_tail : A → ℕ → ℕ → Producer A
  stored : A → ℕ → Producer A

-- Where the output thread stands in `spsc_ring_pop`.
pub data Consumer (A : Type 0) : Type 0 where
  idle : Consumer A
  saw_head : ℕ → Consumer A
  saw_tail : ℕ → ℕ → Consumer A
  fetched : ℕ → A → Consumer A

-- A step of the capture thread, with the entries that it publishes.
pub data Produce {A : Type 0} (r : SpscRing A)
    : Producer A → SpscRing A → Producer A → List A → Type 0 where
  load_head : (x : A) → Produce r idle r (saw_head x r.head) []
  load_tail : {x : A} {h : ℕ} → Produce r (saw_head x h) r (saw_tail x h r.tail) []
  refuse : {x : A} {h t : ℕ} → (h + 1) % r.size ≡ t → Produce r (saw_tail x h t) r idle []
  store :
      {x : A} {h t : ℕ}
      → (h + 1) % r.size ≢ t
      → Produce r (saw_tail x h t) (record r { buf = set r.buf h x }) (stored x h) []
  publish :
      {x : A} {h : ℕ} → Produce r (stored x h) (record r { head = (h + 1) % r.size }) idle (x ∷ [])

-- A step of the output thread, with the entries that it takes.
pub data Consume {A : Type 0} (null : A) (r : SpscRing A)
    : Consumer A → SpscRing A → Consumer A → List A → Type 0 where
  load_head : Consume null r idle r (saw_head r.head) []
  load_tail : {h : ℕ} → Consume null r (saw_head h) r (saw_tail h r.tail) []
  refuse : {h t : ℕ} → t ≡ h → Consume null r (saw_tail h t) r idle []
  fetch : {h t : ℕ} → t ≢ h → Consume null r (saw_tail h t) r (fetched t (get_or r.buf t null)) []
  release :
      {t : ℕ} {x : A}
      → Consume null r (fetched t x) (record r { tail = (t + 1) % r.size }) idle (x ∷ [])

pub record System (A : Type 0) : Type 0 where
  pub ring : SpscRing A
  pub producer : Producer A
  pub consumer : Consumer A
  -- All entries published so far, and all entries taken so far, in order.
  pub sent : List A
  pub received : List A

pub data Step {A : Type 0} (null : A) (s : System A) : System A → Type 0 where
  produce :
      {r : SpscRing A} {p : Producer A} {out : List A}
      → Produce s.ring s.producer r p out
      → Step null s (record s { ring = r; producer = p; sent = s.sent ++ out })
  consume :
      {r : SpscRing A} {c : Consumer A} {out : List A}
      → Consume null s.ring s.consumer r c out
      → Step null s (record s { ring = r; consumer = c; received = s.received ++ out })

module _ {A : Type 0} (null : A) where
  abbrev pub initial : ℕ → System A
  initial size = record {
    ring = spsc_ring_create null size;
    producer = Producer.idle;
    consumer = Consumer.idle;
    sent = [];
    received = [];
  }

  pub data Reach (size : ℕ) : System A → Type 0 where
    start : Reach size (initial size)
    later : {s t : System A} → Reach size s → Step null s t → Reach size t
