-- ===== src/Ring/Queue.antt =====
-- The bounded queue that ringbuffer.c implements, and a client's calls in order.
use websocket.Prelude.{
  ℕ, ◌-◌, ◌≡◌, refl, List, [], ◌∷◌, ◌++◌, Option, none, some, Bool, true, false, length, take, drop,
  min, arith, ◌∙◌, ap, ap₂, sym,
}
use websocket.Ring.{Ring, write, read, reset, writeable}
use websocket.Ring.Invariant.{
  IsValid, write-IsValid, read-IsValid, reset-IsValid, writeable-add-readable,
}
use websocket.Ring.Stored.{contents, length-contents}
use websocket.Ring.Refine.{
  write_lem, read_lem, write-size, read-size, contents-reset, reset-size, write_null, read_null,
}

-- A client's call: a write of the bytes at a pointer, a read, a reset.
pub data Call : Type 0 where
  put : Option (List ℕ) → Call
  get : Bool → ℕ → Call
  clear : Call

-- What a call returns, and stores through the caller's pointer.
pub record Reply : Type 0 where
  pub count : ℕ
  pub bytes : List ℕ

pub run : Ring → List Call → List Reply
run r [] = []
run r (put chunk ∷ calls) =
    let (n, r') = write r chunk in record { count = n; bytes = [] } ∷ run r' calls
run r (get given len ∷ calls) =
    let out = read given r len in
    record { count = out.count; bytes = out.bytes } ∷ run out.ring calls
run r (clear ∷ calls) = record { count = 0; bytes = [] } ∷ run (reset r) calls

-- The same calls on a list of at most `cap` bytes.
pub run_queue : ℕ → List ℕ → List Call → List Reply
run_queue cap q [] = []
run_queue cap q (put none ∷ calls) = record { count = 0; bytes = [] } ∷ run_queue cap q calls
run_queue cap q (put (some xs) ∷ calls) =
    record { count = min (length xs) (cap - length q); bytes = [] }
    ∷ run_queue cap (q ++ take (cap - length q) xs) calls
run_queue cap q (get false len ∷ calls) = record { count = 0; bytes = [] } ∷ run_queue cap q calls
run_queue cap q (get true len ∷ calls) =
    record { count = min len (length q); bytes = take len q } ∷ run_queue cap (drop len q) calls
run_queue cap q (clear ∷ calls) = record { count = 0; bytes = [] } ∷ run_queue cap [] calls

free_lem : {r : Ring} → IsValid r → writeable r ≡ r.size - 1 - length (contents r)
free_lem {r} v = omega (arith, writeable-add-readable v, length-contents r)

-- No sequence of calls tells a well-formed ring from a queue of one byte less than its size.
pub run_refines :
    (calls : List Call) {r : Ring}
    → IsValid r
    → run r calls ≡ run_queue (r.size - 1) (contents r) calls
unfolding run run_queue
run_refines [] v = refl
run_refines (put none ∷ calls) {r} v = rw write_null (ap₂ ◌∷◌ refl (run_refines calls v))
run_refines (put (some xs) ∷ calls) {r} v =
    let (counted, holds, _) = write_lem xs v in
    ap₂ ◌∷◌
      (ap (λ n. record { count = n; bytes = [] })
        (counted ∙ ap (λ n. min (length xs) n) (free_lem v)))
      (run_refines calls (write-IsValid (some xs) v)
        ∙ ap₂ (λ size q. run_queue (size - 1) q calls) (write-size r (some xs))
            (holds ∙ ap (λ n. contents r ++ take n xs) (free_lem v)))
run_refines (get false len ∷ calls) {r} v = rw read_null (ap₂ ◌∷◌ refl (run_refines calls v))
run_refines (get true len ∷ calls) {r} v =
    let (counted, oldest, rest) = read_lem len v in
    ap₂ ◌∷◌
      (ap₂ (λ n xs. record { count = n; bytes = xs })
        (counted ∙ ap (λ n. min len n) (sym (length-contents r))) oldest)
      (run_refines calls (read-IsValid true len v)
        ∙ ap₂ (λ size q. run_queue (size - 1) q calls) (read-size true r len) rest)
run_refines (clear ∷ calls) {r} v = ap₂ ◌∷◌ refl (
    run_refines calls (reset-IsValid v)
    ∙ ap₂ (λ size q. run_queue (size - 1) q calls) (reset-size r) (contents-reset r))
