-- ===== src/Tests/Turns.antt =====
-- Turns of websocket_process: a message arrives; a connection that is closing meets an event; a
-- connection that is opening meets several.
use websocket.Prelude.{refl, [], ◌∷◌, some, none, true, false, arith, inl}
use websocket.Ring.{used, write_inline, writeable}
use websocket.Ring.Invariant.{Fits}
use websocket.Io.{io_init, io_add_socket}
use websocket.Transfer.{arrived, io_ready, receive, moved_write}
use websocket.Frame.Build.{send_header}
use websocket.Client.{WebSocket, connecting, closing}
use websocket.Client.Receive.Rounds.{frames}
use websocket.Client.Process.{Kevent, World}
use websocket.Client.Process.Turn.{websocket_process}
use websocket.Client.Process.Onward.{Onward}
use websocket.Client.Process.Hands.{websocket_process-Onward}
use websocket.Client.Process.Stays.{Stays, websocket_process-Stays}
use websocket.Client.Process.Robust.{websocket_process-Fits}
use websocket.Tests.Wire.{hi}
use websocket.Tests.Session.{whole_numbers}
use websocket.Tests.Events.{still, gone}
use websocket.Tests.Link.{endpoint, empty-IsValid}

abbrev delivering : World
delivering = record still {
  receives = λ _. (arrived (129 ∷ 2 ∷ hi), record { now_ticks = 1; numer = 1; denom = 1 }, none);
}

abbrev readable_event : Kevent
readable_event = record { udata = some 0; broken = false; readable_filter = true }

websocket_process-Onward_example :
    Onward true
      ((true, hi) ∷ [])
      []
      endpoint
      (websocket_process whole_numbers delivering endpoint (some (readable_event ∷ []))).1
unfolding used frames send_header io_ready io_init io_add_socket receive moved_write write_inline
    writeable
websocket_process-Onward_example =
    websocket_process-Onward whole_numbers delivering endpoint readable_event (129 ∷ 2 ∷ hi) []
      ((true, hi) ∷ []) refl refl refl empty-IsValid refl refl refl refl (omega arith) (omega arith)
      (omega arith) (omega arith) refl (omega arith)

abbrev leaving : WebSocket
leaving = record endpoint { state = closing }

websocket_process-Stays_example :
    Stays leaving (websocket_process whole_numbers still leaving (some (gone ∷ []))).1
websocket_process-Stays_example =
    websocket_process-Stays whole_numbers still leaving (some (gone ∷ [])) (inl refl)

-- A connection whose upgrade is under way.
abbrev opening : WebSocket
opening = record endpoint { state = connecting }

websocket_process-Fits_example :
    Fits 32
      (websocket_process whole_numbers delivering opening
        (some (readable_event ∷ gone ∷ readable_event ∷ []))).1.rx_ring
websocket_process-Fits_example =
    websocket_process-Fits 32 whole_numbers delivering opening
      (some (readable_event ∷ gone ∷ readable_event ∷ []))
      (record { valid = empty-IsValid; same_size = refl })
