-- ===== src/Ring/Spsc.antt =====
-- One producer thread in `ringbuffer_write` and one consumer thread in `ringbuffer_read`,
-- interleaved at every shared access: the load of the other side's position, the memcpy, the store
-- of one's own position. The acquire and release orders of the source are what makes an
-- interleaving a faithful picture: the copied bytes are visible to whoever sees the stored
-- position.
pub mod Order
use websocket.Prelude.{ℕ, ◌+◌, ◌%◌, ◌<◌, ◌≡◌, List, [], ◌++◌, length, take, add_size}
use websocket.Ring.{Ring, space, used, clip, copy_in, copy_out}

-- Where the producer stands, with its local variables.
pub data Producer : Type 0 where
  resting : Producer
  loaded : (rp : ℕ) → (xs : List ℕ) → Producer  -- after the load of `read_ptr`
  copied : (ys : List ℕ) → Producer  -- after the memcpy of `ys`

-- Where the consumer stands, with its local variables.
pub data Consumer : Type 0 where
  resting : Consumer
  loaded : (wp len : ℕ) → Consumer  -- after the load of `write_ptr`
  copied : (n : ℕ) → (ys : List ℕ) → Consumer  -- after the memcpy of `n` bytes `ys`

-- The shared ring and both threads; `sent` and `got` are the bytes that all finished calls wrote
-- and read.
pub record System : Type 0 where
  pub ring : Ring
  pub producer : Producer
  pub consumer : Consumer
  pub sent : List ℕ
  pub got : List ℕ

-- What the producer may take, by the position that it loaded.
abbrev pub writes : Ring → ℕ → List ℕ → ℕ
writes r rp xs = clip (length xs) (space r.size rp r.write_ptr)

abbrev pub reads : Ring → ℕ → ℕ → ℕ
reads r wp len = clip len (used r.size r.read_ptr wp)

pub data Step (s : System) : System → Type 0 where
  load_read_ptr :
      (xs : List ℕ)
      → s.producer ≡ Producer.resting
      → Step s (record s { producer = Producer.loaded s.ring.read_ptr xs })
  no_room :
      (rp : ℕ) (xs : List ℕ)
      → s.producer ≡ Producer.loaded rp xs
      → writes s.ring rp xs ≡ 0
      → Step s (record s { producer = Producer.resting })
  copy_bytes_in :
      (rp : ℕ) (xs : List ℕ)
      → s.producer ≡ Producer.loaded rp xs
      → 0 < writes s.ring rp xs
      → Step s (record s {
        ring = record (s.ring) {
          buf = copy_in s.ring.buf s.ring.size s.ring.write_ptr (take (writes s.ring rp xs) xs);
        };
        producer = Producer.copied (take (writes s.ring rp xs) xs);
      })
  store_write_ptr :
      (ys : List ℕ)
      → s.producer ≡ Producer.copied ys
      → Step s (record s {
        ring = record (s.ring) { write_ptr = add_size s.ring.write_ptr (length ys) % s.ring.size };
        producer = Producer.resting;
        sent = s.sent ++ ys;
      })
  load_write_ptr :
      (len : ℕ)
      → s.consumer ≡ Consumer.resting
      → Step s (record s { consumer = Consumer.loaded s.ring.write_ptr len })
  no_bytes :
      (wp len : ℕ)
      → s.consumer ≡ Consumer.loaded wp len
      → reads s.ring wp len ≡ 0
      → Step s (record s { consumer = Consumer.resting })
  copy_bytes_out :
      (wp len : ℕ)
      → s.consumer ≡ Consumer.loaded wp len
      → 0 < reads s.ring wp len
      → Step s (record s {
        consumer =
            Consumer.copied
              (reads s.ring wp len)
              (copy_out s.ring.buf s.ring.size s.ring.read_ptr (reads s.ring wp len));
      })
  store_read_ptr :
      (n : ℕ) (ys : List ℕ)
      → s.consumer ≡ Consumer.copied n ys
      → Step s (record s {
        ring = record (s.ring) { read_ptr = add_size s.ring.read_ptr n % s.ring.size };
        consumer = Consumer.resting;
        got = s.got ++ ys;
      })

-- The states that the two threads can bring about, from a ring that both find at rest.
pub data Reach (r : Ring) : System → Type 0 where
  start : Reach r (record {
    ring = r;
    producer = Producer.resting;
    consumer = Consumer.resting;
    sent = [];
    got = [];
  })
  next : {s t : System} → Reach r s → Step s t → Reach r t
