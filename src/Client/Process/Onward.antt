-- ===== src/Client/Process/Onward.antt =====
-- The calls of process_frames by websocket_process (src/websocket.c), as a consumer of a stream of
-- data frames.
use mathlib.Core.Path.{subst}
use websocket.Prelude.{
  length-append, ◌⊎◌, ℕ, zero, suc, ◌+◌, ◌-◌, ◌≤◌, ◌≡◌, ◌∙◌, refl, ap, sym, List, [], ◌∷◌, ◌++◌,
  append_assoc, append-nil, Bool, Bool-cases, inl, inr, true, false, ◌==◌, length, arith,
}
use native.Mathlib.Nat.{mod-eq_of_lt}
use websocket.Ring.{readable}
use websocket.Ring.Invariant.{IsValid, readable-eq-used}
use websocket.Ring.Inline.{straight_used}
use websocket.Ring.Stored.{contents}
use websocket.Frame.Build.{send_header}
use websocket.Client.{WebSocket}
use websocket.Client.Receive.{Outside, process_frames}
use websocket.Client.Receive.Rounds.{frames}
use websocket.Client.Receive.Partial.{messages_in, payloads, payloads-append, frames-append}
use websocket.Client.Receive.Prefix.{AreShort, AreShort-right, IsCut}
use websocket.Client.Receive.Stream.{process_frames-Advanced}
use websocket.Client.Receive.Robust.{process_frames-consumes}
use websocket.Client.Process.{World, Run, pass}
use websocket.Client.Process.Turn.{drain, drain_all}

-- The ring holds the beginning of the frames of `messages`, of which `later` has not arrived yet,
-- and does not wrap round its end; on_message is set.
pub record IsReceiving (messages : List (Bool × List ℕ)) (later : List ℕ) (ws : WebSocket)
    : Type 0 where
  pub stream : contents ws.rx_ring ++ later ≡ frames messages
  pub valid : IsValid ws.rx_ring
  pub straight : ws.rx_ring.read_ptr ≤ ws.rx_ring.write_ptr
  pub listens : ws.on_message ≡ true
  pub short : AreShort messages

-- The messages `done` have been handed out; if `whole`, all of at most a thousand that have
-- arrived.
pub record Onward (whole : Bool) (messages : List (Bool × List ℕ)) (later : List ℕ)
    (ws ws' : WebSocket) : Type 0 where
  pub done : List (Bool × List ℕ)
  pub rest : List (Bool × List ℕ)
  pub split : messages ≡ done ++ rest
  pub told : messages_in ws'.events ≡ messages_in ws.events ++ payloads done
  pub next : IsReceiving rest later ws'
  pub same_state : ws'.state ≡ ws.state
  pub same_ssl : ws'.use_ssl ≡ ws.use_ssl
  pub full : whole ≡ true → (1000 ≤ length done) ⊎ IsCut (length (contents ws'.rx_ring)) rest

-- Where no whole frame has arrived, none is handed out.
IsCut-stays :
    (done rest : List (Bool × List ℕ)) (n m k : ℕ)
    → IsCut n (done ++ rest)
    → n + k ≡ length (frames (done ++ rest))
    → m + k ≡ length (frames rest)
    → IsCut m rest
unfolding frames
IsCut-stays [] rest n m k h e e' = subst (λ t. IsCut t rest) (omega arith) h
IsCut-stays ((is_text, xs) ∷ done) rest n m k h e e' =
    let header = send_header is_text (length xs) in
    absurd (
      omega (
        arith,
        length-append header xs,
        length-append (header ++ xs) (frames (done ++ rest)),
        ap length (frames-append done rest),
        length-append (frames done) (frames rest),
      ))

pub Onward-trans :
    {b1 b2 : Bool} {messages : List (Bool × List ℕ)} {later : List ℕ} {a b c : WebSocket}
    → (p : Onward b1 messages later a b) → Onward b2 p.rest later b c
    → Onward b1 messages later a c
Onward-trans {messages = messages} {later = later} {a = a} {b = b} {c = c} p q = record {
  done = p.done ++ q.done;
  rest = q.rest;
  split = p.split ∙ ap (λ t. p.done ++ t) q.split ∙ sym (append_assoc p.done q.done q.rest);
  told =
      q.told
      ∙ ap (λ t. t ++ payloads q.done) p.told
      ∙ append_assoc (messages_in a.events) (payloads p.done) (payloads q.done)
      ∙ ap (λ t. messages_in a.events ++ t) (sym (payloads-append p.done q.done));
  next = q.next;
  same_state = q.same_state ∙ p.same_state;
  same_ssl = q.same_ssl ∙ p.same_ssl;
  full = λ yes_whole. elim (p.full yes_whole) [
    | inl many ↦ inl (omega (arith, length-append p.done q.done))
    | inr cut_off ↦ inr (
        IsCut-stays q.done q.rest (length (contents b.rx_ring)) (length (contents c.rx_ring))
          (length later) (subst (IsCut (length (contents b.rx_ring))) q.split cut_off)
          (omega (
            arith,
            ap length p.next.stream,
            length-append (contents b.rx_ring) later,
            ap (λ t. length (frames t)) q.split,
          ))
          (omega (arith, ap length q.next.stream, length-append (contents c.rx_ring) later)))
  ];
}

Onward-refl :
    {messages : List (Bool × List ℕ)} {later : List ℕ} {ws : WebSocket}
    → IsReceiving messages later ws
    → Onward false messages later ws ws
Onward-refl {messages} {later} {ws} r = record {
  done = [];
  rest = messages;
  split = refl;
  told = sym (append-nil (messages_in ws.events));
  next = r;
  same_state = refl;
  same_ssl = refl;
  full = λ h. cc;
}

pub Onward-weaken :
    {messages : List (Bool × List ℕ)} {later : List ℕ} {a b : WebSocket}
    → Onward true messages later a b
    → Onward false messages later a b
Onward-weaken p = record {
  done = p.done;
  rest = p.rest;
  split = p.split;
  told = p.told;
  next = p.next;
  same_state = p.same_state;
  same_ssl = p.same_ssl;
  full = λ h. cc;
}

-- What is consumed does not go past the write position.
process_frames-straight :
    (ws : WebSocket) (outside : ℕ → Outside)
    → IsValid ws.rx_ring
    → ws.rx_ring.read_ptr ≤ ws.rx_ring.write_ptr
    → let r' = (process_frames ws outside).rx_ring in r'.read_ptr ≤ r'.write_ptr
process_frames-straight ws outside v straight =
    let r = ws.rx_ring in
    let (v', rest) = process_frames-consumes ws outside v in
    let (n, h, p, total) = rest in
    let amount : readable r ≡ r.write_ptr - r.read_ptr =
      readable-eq-used r ∙ straight_used r v straight in
    ground (
      arith,
      p.read_ptr,
      p.write_ptr,
      v.write_in,
      v.small,
      mod-eq_of_lt {n = r.read_ptr + n} {m = r.size},
    )

pub process_frames-Onward :
    {messages : List (Bool × List ℕ)} {later : List ℕ} (ws : WebSocket) (outside : ℕ → Outside)
    → IsReceiving messages later ws
    → Onward true messages later ws (process_frames ws outside)
process_frames-Onward {messages} {later} ws outside r =
    let a =
      process_frames-Advanced ws messages later outside r.valid r.straight r.stream r.short
        r.listens in
    record {
      done = a.done;
      rest = a.rest;
      split = a.split;
      told = a.told;
      next = record {
        stream = a.left;
        valid = a.valid;
        straight = process_frames-straight ws outside r.valid r.straight;
        listens = a.same_callback ∙ r.listens;
        short = AreShort-right a.done a.rest (subst AreShort a.split r.short);
      };
      same_state = a.same_state;
      same_ssl = a.same_ssl;
      full = λ h. elim a.full [ inl many ↦ inl (omega arith) | inr cut_off ↦ inr cut_off ];
    }

pub pass-Onward :
    (w : World) (s : Run) {messages : List (Bool × List ℕ)} {later : List ℕ}
    → IsReceiving messages later s.ws
    → Onward true messages later s.ws (pass w s).ws
unfolding pass
pass-Onward w s r = process_frames-Onward s.ws (w.passes s.passed) r

drain-Onward :
    (w : World) (fuel : ℕ) (s : Run) (messages : List (Bool × List ℕ)) (later : List ℕ)
    → IsReceiving messages later s.ws
    → Onward false messages later s.ws (drain w fuel s).ws
unfolding drain
drain-Onward w zero s messages later r = Onward-refl r
drain-Onward w (suc fuel) s messages later r =
    let o = Onward-weaken (pass-Onward w s r) in
    let rest = Onward-trans o (drain-Onward w fuel (pass w s) o.rest later o.next) in
    elim (Bool-cases ((pass w s).ws.rx_ring.read_ptr == s.ws.rx_ring.read_ptr)) [
      | inl stays ↦ rw stays o
      | inr moved ↦ rw moved rest
    ]

-- The loop that empties the ring.
pub drain_all-Onward :
    (w : World) (s : Run) {messages : List (Bool × List ℕ)} {later : List ℕ}
    → IsReceiving messages later s.ws
    → Onward true messages later s.ws (drain_all w s).ws
unfolding drain_all
drain_all-Onward w s {messages} {later} r =
    let o = pass-Onward w s r in
    Onward-trans o
      (drain-Onward w (readable (pass w s).ws.rx_ring + 1) (pass w s) o.rest later o.next)
