-- ===== src/Client/Link/Ordered.antt =====
-- What one end of a plain connection sends, the other is told (src/websocket.c).
use mathlib.Core.Path.{subst}
use websocket.Prelude.{
  ℕ, ◌≤◌, ◌≡◌, ◌∙◌, ap, ap₂, sym, List, [], ◌∷◌, ◌++◌, append_assoc, append-nil, Bool, true, length,
  length-append, arith,
}
use websocket.Ring.Invariant.{IsValid}
use websocket.Ring.Stored.{contents}
use websocket.Frame.Build.{send_header}
use websocket.Client.Receive.{Outside, process_frames}
use websocket.Client.Receive.Rounds.{frames}
use websocket.Client.Receive.Partial.{messages_in, payloads, payloads-append, frames-append}
use websocket.Client.Receive.Prefix.{AreShort, AreShort-append, AreShort-right}
use websocket.Client.Receive.Stream.{Advanced-all, process_frames-Advanced}
use websocket.Client.Link.{Link, Step, send, arrive, handle, turn, Reach, here, next}
use websocket.Client.Process.Hands.{websocket_process-Onward}
use websocket.Client.Link.Kept.{send_keeps, read_in_keeps}

-- Nothing has been sent, nothing is under way, and the receiver listens.
pub record IsIdle (s : Link) : Type 0 where
  pub sent : s.sent ≡ []
  pub flight : s.flight ≡ []
  pub tx : contents s.sender.tx_ring ≡ []
  pub rx : contents s.receiver.rx_ring ≡ []
  pub tx_valid : IsValid s.sender.tx_ring
  pub rx_valid : IsValid s.receiver.rx_ring
  pub listens : s.receiver.on_message ≡ true

-- The messages of `done` were handed to the receiver's callback; the frames of `rest` stand in the
-- receive ring, in flight and in the transmit ring, in this order and with nothing between.
pub record Flows (base : List (List ℕ)) (s : Link) : Type 0 where
  pub done : List (Bool × List ℕ)
  pub rest : List (Bool × List ℕ)
  pub split : s.sent ≡ done ++ rest
  pub told : messages_in s.receiver.events ≡ base ++ payloads done
  pub stream : contents s.receiver.rx_ring ++ (s.flight ++ contents s.sender.tx_ring) ≡ frames rest
  pub tx_valid : IsValid s.sender.tx_ring
  pub rx_valid : IsValid s.receiver.rx_ring
  pub listens : s.receiver.on_message ≡ true
  pub short : AreShort rest

IsIdle-Flows : {s : Link} → IsIdle s → Flows (messages_in s.receiver.events) s
unfolding frames
IsIdle-Flows {s} h = record {
  done = [];
  rest = [];
  split = h.sent;
  told = sym (append-nil (messages_in s.receiver.events));
  stream = ap₂ ◌++◌ h.rx (ap₂ ◌++◌ h.flight h.tx);
  tx_valid = h.tx_valid;
  rx_valid = h.rx_valid;
  listens = h.listens;
  short = tt;
}

-- A frame put in at one end of the stream.
stream_grows :
    (rx flight out tx tx' frame : List ℕ) (messages : List ℕ)
    → rx ++ (flight ++ tx) ≡ messages
    → out ++ tx' ≡ tx ++ frame
    → rx ++ ((flight ++ out) ++ tx') ≡ messages ++ (frame ++ [])
stream_grows rx flight out tx tx' frame messages h k =
    ap (λ t. rx ++ t)
      (append_assoc flight out tx' ∙ ap (λ t. flight ++ t) k ∙ sym (append_assoc flight tx frame))
    ∙ sym (append_assoc rx (flight ++ tx) frame)
    ∙ ap₂ ◌++◌ h (sym (append-nil frame))

-- What is told on top of what was told.
told_on_top :
    (base : List (List ℕ)) (done more : List (Bool × List ℕ)) {before after : List (List ℕ)}
    → before ≡ base ++ payloads done
    → after ≡ before ++ payloads more
    → after ≡ base ++ payloads (done ++ more)
told_on_top base done more told now =
    now
    ∙ ap (λ t. t ++ payloads more) told
    ∙ append_assoc base (payloads done) (payloads more)
    ∙ ap (λ t. base ++ t) (sym (payloads-append done more))

pub Step-Flows : {s t : Link} (base : List (List ℕ)) → Step s t → Flows base s → Flows base t
unfolding frames
Step-Flows base (send s is_text bytes out taken plain ready pos short ok takes wired) f =
    let (kept, valid) =
      send_keeps s.sender is_text bytes out taken f.tx_valid plain ready pos ok takes wired in
    let frame = send_header is_text (length bytes) ++ bytes in
    record {
      done = f.done;
      rest = f.rest ++ (is_text, bytes) ∷ [];
      split = ap (λ t. t ++ (is_text, bytes) ∷ []) f.split ∙ append_assoc f.done f.rest _;
      told = f.told;
      stream =
          stream_grows (contents s.receiver.rx_ring) s.flight _ (contents s.sender.tx_ring) _ frame
            (frames f.rest) f.stream kept
          ∙ sym (frames-append f.rest ((is_text, bytes) ∷ []));
      tx_valid = valid;
      rx_valid = f.rx_valid;
      listens = f.listens;
      short = AreShort-append f.rest ((is_text, bytes) ∷ []) f.short (short, tt);
    }
Step-Flows base (arrive s xs rest clock stamp ready came pos offer room) f =
    let kept = read_in_keeps s.receiver xs clock stamp f.rx_valid ready pos offer room in
    let tx = contents s.sender.tx_ring in
    record {
      done = f.done;
      rest = f.rest;
      split = f.split;
      told = ap messages_in kept.2 ∙ f.told;
      stream =
          ap (λ t. t ++ (rest ++ tx)) kept.0
          ∙ append_assoc (contents s.receiver.rx_ring) xs (rest ++ tx)
          ∙ ap (λ t. contents s.receiver.rx_ring ++ t)
              (sym (append_assoc xs rest tx) ∙ ap (λ t. t ++ tx) (sym came))
          ∙ f.stream;
      tx_valid = f.tx_valid;
      rx_valid = kept.1;
      listens = kept.3 ∙ f.listens;
      short = f.short;
    }
Step-Flows base (handle s outside straight) f =
    let a =
      process_frames-Advanced s.receiver f.rest (s.flight ++ contents s.sender.tx_ring) outside
        f.rx_valid straight f.stream f.short f.listens in
    record {
      done = f.done ++ a.done;
      rest = a.rest;
      split = f.split ∙ ap (λ t. f.done ++ t) a.split ∙ sym (append_assoc f.done a.done a.rest);
      told = told_on_top base f.done a.done f.told a.told;
      stream = a.left;
      tx_valid = f.tx_valid;
      rx_valid = a.valid;
      listens = a.same_callback ∙ f.listens;
      short = AreShort-right a.done a.rest (subst AreShort a.split f.short);
    }
Step-Flows base
      (turn s f' w event xs rest up plain ready live readable came flown pos offer room straight)
      f =
    let tx = contents s.sender.tx_ring in
    let o =
      websocket_process-Onward f' w s.receiver event xs (rest ++ tx) f.rest up plain f.listens
        f.rx_valid ready live readable came pos offer room straight
        (ap (λ t. contents s.receiver.rx_ring ++ t)
            (sym (append_assoc xs rest tx) ∙ ap (λ t. t ++ tx) (sym flown))
          ∙ f.stream)
        f.short in
    record {
      done = f.done ++ o.done;
      rest = o.rest;
      split = f.split ∙ ap (λ t. f.done ++ t) o.split ∙ sym (append_assoc f.done o.done o.rest);
      told = told_on_top base f.done o.done f.told o.told;
      stream = o.next.stream;
      tx_valid = f.tx_valid;
      rx_valid = o.next.valid;
      listens = o.next.listens;
      short = o.next.short;
    }

Reach-Flows : {s t : Link} (base : List (List ℕ)) → Reach s t → Flows base s → Flows base t
Reach-Flows base here f = f
Reach-Flows base (next r step) f = Step-Flows base step (Reach-Flows base r f)

-- From an idle connection, after any sequence of successful sends of at least one and fewer than
-- 2 ^ 62 bytes, reads, calls of process_frames, and turns of websocket_process with one event that
-- reports bytes, in which every read delivers at least one byte, no read overfills the receive
-- ring and process_frames finds a ring that does not wrap round its end: the receiver's callback
-- has been called with a first part of the messages sent, in order and unchanged, and no others.
-- The frames of those that remain stand in the receive ring, in flight and in the transmit ring,
-- in this order and with nothing between.
pub link_in_order :
    {start s : Link}
    → IsIdle start
    → Reach start s
    → (done : List (Bool × List ℕ)) × (rest : List (Bool × List ℕ)) × (s.sent ≡ done ++ rest)
      × (messages_in s.receiver.events ≡ messages_in start.receiver.events ++ payloads done)
      × (contents s.receiver.rx_ring ++ (s.flight ++ contents s.sender.tx_ring) ≡ frames rest)
link_in_order {start} idle r =
    let f = Reach-Flows (messages_in start.receiver.events) r (IsIdle-Flows idle) in
    (f.done, f.rest, f.split, f.told, f.stream)

-- From an idle connection, after any sequence of such steps, if at most a thousand messages were
-- sent, all of them have arrived, nothing is in flight or left in the transmit ring, and the
-- receive ring does not wrap round its end, then the next call of process_frames leaves no message
-- out.
pub link_delivers :
    {start s : Link} (outside : ℕ → Outside)
    → IsIdle start
    → Reach start s
    → s.flight ≡ []
    → contents s.sender.tx_ring ≡ []
    → s.receiver.rx_ring.read_ptr ≤ s.receiver.rx_ring.write_ptr
    → length s.sent ≤ 1000
    → messages_in (process_frames s.receiver outside).events
      ≡ messages_in start.receiver.events ++ payloads s.sent
link_delivers {start} {s} outside idle r flown emptied straight few =
    let base = messages_in start.receiver.events in
    let f = Reach-Flows base r (IsIdle-Flows idle) in
    let a =
      process_frames-Advanced s.receiver f.rest (s.flight ++ contents s.sender.tx_ring) outside
        f.rx_valid straight f.stream f.short f.listens in
    let none_left : a.rest ≡ [] =
      Advanced-all a (omega (arith, ap length f.split, length-append f.done f.rest))
        (ap₂ ◌++◌ flown emptied) in
    let whole : f.rest ≡ a.done = a.split ∙ ap (λ t. a.done ++ t) none_left ∙ append-nil a.done in
    told_on_top base f.done a.done f.told a.told
    ∙ ap (λ t. base ++ payloads t) (ap (λ t. f.done ++ t) (sym whole) ∙ sym f.split)
