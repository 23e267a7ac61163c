-- ===== src/Client/Process/Lost.antt =====
-- Events that report a broken connection (src/websocket.c).
use websocket.Prelude.{
  ◌≡◌, ◌∙◌, refl, List, [], ◌∷◌, ◌++◌, Bool, true, false, if◌then◌else◌, arith, ◌&&◌,
}
use websocket.Client.{WebSocket, closed, failed}
use websocket.Client.Lifecycle.{is_open}
use websocket.Client.Process.{Kevent, World, Run, call_on_error}
use websocket.Client.Process.Turn.{lose, handle_event, handle_events}

-- Every event has EV_EOF or EV_ERROR.
unfoldable pub all_broken : List Kevent → Bool
all_broken [] = true
all_broken (event ∷ events) = event.broken && all_broken events

handle_event-broken :
    (w : World) (s : Run) (event : Kevent)
    → event.broken ≡ true
    → (handle_event w s event).ws ≡ lose s.ws
unfolding handle_event
handle_event-broken w s event h = rw h refl

pub lose-closed : (ws : WebSocket) → is_open ws.state ≡ false → lose ws ≡ ws
unfolding lose
lose-closed ws h = rw h refl

handle_events-closed :
    (w : World) (s : Run) (events : List Kevent)
    → all_broken events ≡ true
    → is_open s.ws.state ≡ false
    → (handle_events w s events).ws ≡ s.ws
unfolding handle_events all_broken
handle_events-closed w s [] h c = refl
handle_events-closed w s (event ∷ events) h c =
    let first : (handle_event w s event).ws ≡ s.ws =
      handle_event-broken w s event (ground arith) ∙ lose-closed s.ws c in
    handle_events-closed w (handle_event w s event) events (ground arith) (rw first c) ∙ first

-- However many events report that the connection is broken, as long as there is one, an opening or
-- open connection is closed and on_error, where it is set, is called once; nothing else changes.
pub handle_events-lost :
    (w : World) (s : Run) (event : Kevent) (events : List Kevent)
    → all_broken (event ∷ events) ≡ true
    → is_open s.ws.state ≡ true
    → (handle_events w s (event ∷ events)).ws ≡ record (s.ws) {
      state = closed;
      events = if s.ws.on_error then s.ws.events ++ failed ∷ [] else s.ws.events;
    }
unfolding handle_events all_broken lose call_on_error is_open
handle_events-lost w s event events h live =
    let first : (handle_event w s event).ws ≡ lose s.ws =
      handle_event-broken w s event (ground arith) in
    let shut : is_open (handle_event w s event).ws.state ≡ false = rw first (rw live refl) in
    handle_events-closed w (handle_event w s event) events (ground arith) shut
    ∙ first
    ∙ rw live refl
