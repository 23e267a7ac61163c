-- ===== src/Tests/Events.antt =====
-- Events for a connection, and bytes that are no whole frames.
use websocket.Prelude.{ℕ, ◌+◌, ◌≤◌, ◌≡◌, refl, [], ◌∷◌, none, some, true, arith}
use websocket.Ring.{readable}
use websocket.Ring.Invariant.{IsValid}
use websocket.Ring.Stored.{consume}
use websocket.Transfer.{would_block, again}
use websocket.Client.{WebSocket, closed, failed}
use websocket.Client.Lifecycle.{is_open}
use websocket.Client.Receive.{Outside, process_frames}
use websocket.Client.Receive.Same.{SamePositions}
use websocket.Client.Receive.Robust.{process_frames-consumes}
use websocket.Client.Process.{Kevent, World, Run}
use websocket.Client.Process.Turn.{drain, handle_events}
use websocket.Client.Process.Drained.{drain_ends}
use websocket.Client.Process.Lost.{all_broken, handle_events-lost}
use websocket.Tests.{straight, wrapped, straight-IsValid}
use websocket.Tests.Wire.{live, blocked}

-- Three bytes that begin no frame.
abbrev noisy : WebSocket
noisy = record (live straight wrapped) { on_error = true }

abbrev quiet : Outside
quiet = record { now_ns = 0; key = 0; malloc = true; out = blocked }

process_frames-consumes_example :
    let r' = (process_frames noisy (λ _. quiet)).rx_ring in
    IsValid r'
    × ((n : ℕ) × (n ≤ readable straight)
        × (SamePositions (consume straight n) r')
        × (readable r' + n ≡ readable straight))
process_frames-consumes_example = process_frames-consumes noisy (λ _. quiet) straight-IsValid

abbrev pub still : World
still = record {
  reads = λ _. (would_block, [], []);
  writes = λ _. (would_block, 0);
  receives = λ _. (again, record { now_ticks = 1; numer = 1; denom = 1 }, none);
  passes = λ _ _. quiet;
  mallocs = λ _. true;
  malloc_samples = true;
  established_ns = 0;
  health_ns = 0;
  report_ns = 0;
  metrics_ns = 0;
  heartbeat_ns = 0;
  out = blocked;
}

abbrev running : Run
running = record { ws = noisy; read = 0; written = 0; received = 0; passed = 0; parsed = 0 }

drain_ends_example : drain still (4 + 2) running ≡ drain still 4 running
unfolding readable
drain_ends_example = drain_ends still 4 2 running straight-IsValid (omega arith)

abbrev pub gone : Kevent
gone = record { udata = some 0; broken = true; readable_filter = true }

handle_events-lost_example :
    (handle_events still running (gone ∷ gone ∷ [])).ws
    ≡ record noisy { state = closed; events = failed ∷ [] }
unfolding all_broken is_open
handle_events-lost_example = handle_events-lost still running gone (gone ∷ []) refl refl
