-- ===== src/Ring/BatchRead.antt =====
-- `ringbuffer_batch_read` against one read of as many bytes as all destinations want.
use native.Mathlib.Nat.{zero-add, mod-add-mod, mod-eq_of_lt}
use websocket.Prelude.{
  ℕ, zero, suc, ◌+◌, ◌-◌, ◌%◌, ◌^◌, ◌≤◌, ◌<◌, ◌≡◌, ◌∙◌, List, [], ◌∷◌, ◌++◌, Bool, true, false,
  length, arith, ap, ap₂, sym, min, take-add, drop-add, take-min, drop-min, add_size, ltb,
  if◌then◌else◌, take, drop, append-nil, append_assoc, ◌==◌, ==_iff, suc-==-zero, Memory,
  Bool-cases, inl, inr, length-tabulate,
}
use websocket.Ring.{Ring, Fetch, used, clip, copy_out, batch_read_loop, batch_read, readable}
use websocket.Ring.Invariant.{IsValid, used-lt, used-advance_read, clip_lem, readable-eq-used}
use websocket.Ring.Stored.{stored, contents, copy_out-stored, stored-advance}

-- The bytes that all destinations want, those at NULL left out.
pub wanted : List (Bool × ℕ) → ℕ
wanted [] = 0
wanted ((false, len) ∷ dests) = wanted dests
wanted ((true, len) ∷ dests) = len + wanted dests

-- What the loop has done when it stops, started at `b`, for destinations that want `w` bytes.
record Fetched (buf : Memory) (size wp w : ℕ) (b end : Fetch) : Type 0 where
  rp_in : end.rp < size
  moved : end.rp ≡ (b.rp + min w (used size b.rp wp)) % size
  counted : end.total ≡ b.total + min w (used size b.rp wp)
  out : end.out ≡ b.out ++ take w (stored buf size b.rp wp)
  rest : stored buf size end.rp wp ≡ drop w (stored buf size b.rp wp)

module _ (buf : Memory) (size wp : ℕ) (small : size ≤ 2 ^ 62) (q : wp < size) where
  -- One destination, clipped to the bytes there.
  abbrev after_dest : ℕ → Fetch → Fetch
  after_dest len b =
      let to_read = clip len (used size b.rp wp) in
      record {
        rp = add_size b.rp to_read % size;
        total = add_size b.total to_read;
        out = b.out ++ copy_out buf size b.rp to_read;
      }

  module _ (len : ℕ) (b : Fetch) (p : b.rp < size) where
    amount : clip len (used size b.rp wp) ≡ min len (used size b.rp wp)
    amount = clip_lem len (used size b.rp wp)

    clipped : min len (used size b.rp wp) ≡ min (length (stored buf size b.rp wp)) len
    clipped = omega (arith, length-tabulate (used size b.rp wp) (λ k. buf ((b.rp + k) % size)))

    few : used size b.rp wp < size
    few = used-lt size b.rp wp small p q

    after_dest-Fetched :
        b.total + used size b.rp wp ≤ size → Fetched buf size wp len b (after_dest len b)
    after_dest-Fetched bounded =
        let n = min len (used size b.rp wp) in
        record {
          rp_in = omega arith;
          moved = rw amount (ap (λ t. t % size) (omega (arith, few)));
          counted = omega (arith, amount);
          out = rw amount (
              ap (λ t. b.out ++ t)
                (copy_out-stored buf size b.rp wp small p q n (omega arith)
                  ∙ take-min n len (stored buf size b.rp wp) clipped));
          rest = rw amount (
              stored-advance buf size b.rp wp small p q n (omega arith)
              ∙ drop-min n len (stored buf size b.rp wp) clipped);
        }

    after_dest-used : used size (after_dest len b).rp wp ≡ used size b.rp wp - len
    after_dest-used = rw amount (
        omega (
          arith,
          used-advance_read size b.rp wp (min len (used size b.rp wp)) small p q (omega arith),
        ))

  Fetched-trans :
      (w u : ℕ) (b c end : Fetch)
      → used size c.rp wp ≡ used size b.rp wp - w
      → Fetched buf size wp w b c
      → Fetched buf size wp u c end
      → Fetched buf size wp (w + u) b end
  Fetched-trans w u b c end less f g = record {
    rp_in = g.rp_in;
    moved =
        g.moved
        ∙ ap (λ t. (t + min u (used size c.rp wp)) % size) f.moved
        ∙ mod-add-mod _ _ _
        ∙ ap (λ t. t % size) (omega arith);
    counted = omega (arith, f.counted, g.counted);
    out =
        g.out
        ∙ ap₂ (λ s t. s ++ take u t) f.out f.rest
        ∙ append_assoc b.out (take w (stored buf size b.rp wp))
            (take u (drop w (stored buf size b.rp wp)))
        ∙ ap (λ t. b.out ++ t) (sym (take-add w u (stored buf size b.rp wp)));
    rest = g.rest ∙ ap (λ t. drop u t) f.rest ∙ sym (drop-add w u (stored buf size b.rp wp));
  }

  Fetched-nothing :
      (w : ℕ) (b : Fetch) → b.rp < size → min w (used size b.rp wp) ≡ 0 → Fetched buf size wp w b b
  Fetched-nothing w b p none_left =
      let nothing : 0 ≡ min (length (stored buf size b.rp wp)) w = omega (arith, clipped w b p) in
      record {
        rp_in = p;
        moved = sym (ap (λ t. t % size) (omega arith) ∙ mod-eq_of_lt p);
        counted = omega arith;
        out = sym (append-nil b.out) ∙ ap (λ t. b.out ++ t) (take-min 0 w _ nothing);
        rest = drop-min 0 w _ nothing;
      }

  batch_read_loop-Fetched :
      (dests : List (Bool × ℕ)) (b : Fetch)
      → b.rp < size
      → b.total + used size b.rp wp ≤ size
      → Fetched buf size wp (wanted dests) b (batch_read_loop buf size wp dests b)
  unfolding batch_read_loop wanted
  batch_read_loop-Fetched [] b p bounded = Fetched-nothing 0 b p (omega arith)
  batch_read_loop-Fetched ((false, len) ∷ dests) b p bounded =
      batch_read_loop-Fetched dests b p bounded
  batch_read_loop-Fetched ((true, zero) ∷ dests) b p bounded =
      rw zero-add (batch_read_loop-Fetched dests b p bounded)
  batch_read_loop-Fetched ((true, suc len) ∷ dests) b p bounded =
      let c = after_dest (suc len) b in
      let first = after_dest-Fetched (suc len) b p bounded in
      let less = after_dest-used (suc len) b p in
      let more = batch_read_loop-Fetched dests c first.rp_in (omega (arith, first.counted, less)) in
      elim (Bool-cases (used size b.rp wp == 0)) [
        | inl empty ↦
            rw (suc-==-zero, empty) (Fetched-nothing _ b p (omega (arith, (==_iff _ _).0 empty)))
        | inr some_left ↦
            rw (suc-==-zero, some_left)
              (Fetched-trans (suc len) (wanted dests) b c _ less first more)
      ]

-- On a well-formed ring `ringbuffer_batch_read` returns, and removes, the bytes that one
-- `ringbuffer_read` of as many as all the destinations want would.
pub batch_read_lem :
    {r : Ring} (dests : List (Bool × ℕ))
    → IsValid r
    → let done = batch_read r dests in
      (done.count ≡ min (wanted dests) (readable r))
      × (done.bytes ≡ take (wanted dests) (contents r))
      × (contents done.ring ≡ drop (wanted dests) (contents r))
      × IsValid done.ring
unfolding batch_read
batch_read_lem {r} dests v =
    let b : Fetch = record { rp = r.read_ptr; total = 0; out = [] } in
    let end = batch_read_loop r.buf r.size r.write_ptr dests b in
    let done =
      batch_read_loop-Fetched r.buf r.size r.write_ptr v.small v.write_in dests b v.read_in
        (omega (arith, used-lt r.size r.read_ptr r.write_ptr v.small v.read_in v.write_in)) in
    let stays : end.total ≡ 0 → r.read_ptr ≡ end.rp = λ e.
      sym (
        done.moved ∙ ap (λ t. t % r.size) (omega (arith, done.counted)) ∙ mod-eq_of_lt v.read_in) in
    let pointer : (if ltb 0 end.total then end.rp else r.read_ptr) ≡ end.rp =
      ground (arith, stays) in
    rw (pointer, readable-eq-used r)
      (omega (arith, done.counted), done.out, done.rest, omega (arith, done.rp_in))
