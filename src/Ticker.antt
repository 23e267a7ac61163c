-- ===== src/Ticker.antt =====
-- The example client, examples/binance_ticker.c: what on_message prints of a trade, the address
-- that main connects to, and main with its event loop. What main prints besides is left out; a
-- signal ends the loop where its list of turns ends. sysctl_tune_network changes no state of the
-- program.
pub mod Wrapped
use websocket.Prelude.{
  ℕ, List, [], ◌∷◌, ◌++◌, Option, none, some, Bool, true, false, ◌||◌, ◌==◌, if◌then◌else◌, length,
  take, Memory, memcpy, codes, c_string,
}
use websocket.Json.{neon_parse_json_market_data}
use websocket.Client.{WebSocket}
use websocket.Client.Lifecycle.{
  websocket_create, websocket_set_on_message, websocket_set_on_error, is_closed, websocket_close,
  websocket_get_state, websocket_destroy,
}
use websocket.Client.Connect.{Dial, websocket_connect}
use websocket.Client.Observe.{Floating}
use websocket.Client.Process.{World, Kevent}
use websocket.Client.Process.Turn.{websocket_process}

-- The bytes that a call of neon_parse_json_market_data stores in a buffer; a call that fails leaves
-- the length 0.
unfoldable pub field_of : Memory → ℕ → List ℕ → ℕ → List ℕ
field_of m len name size = elim (neon_parse_json_market_data m len name size) [
  | none ↦ []
  | some value ↦ value
]

-- A second name, where the first gives nothing.
unfoldable pub field_or : Memory → ℕ → List ℕ → List ℕ → ℕ → List ℕ
unfolding field_of
field_or m len name other size =
    let value = field_of m len name size in
    let second = field_of m len other size in if length value == 0 then second else value

-- What is printed: symbol, price, and volume if there is one.
pub record Trade : Type 0 where
  pub symbol : List ℕ
  pub price : List ℕ
  pub volume : List ℕ

unfoldable pub print_trade : List ℕ → List ℕ → List ℕ → Option Trade
print_trade symbol price volume =
    if (length symbol == 0) || (length price == 0)
    then none
    else some
        (record { symbol = c_string symbol; price = c_string price; volume = c_string volume })

-- The fields of the text behind "data", or of a text without it.
unfoldable pub wrapped_trade : Memory → ℕ → Option Trade
unfolding field_of
wrapped_trade m len =
    print_trade (field_of m len (codes "s") 32) (field_of m len (codes "p") 32)
      (field_of m len (codes "q") 32)

unfoldable pub direct_trade : Memory → ℕ → Option Trade
unfolding field_of field_or
direct_trade m len =
    print_trade (field_of m len (codes "s") 32) (field_or m len (codes "p") (codes "c") 32)
      (field_or m len (codes "q") (codes "v") 32)

-- `on_message`: what it prints. `stack` is what stands in `data_field` before.
unfoldable pub on_message : Memory → ℕ → Memory → Option Trade
on_message m len stack =
    let data_field = field_of m len (codes "data") 4096 in
    if length data_field == 0
    then direct_trade m len
    else wrapped_trade (memcpy stack 0 (data_field ++ 0 ∷ [])) (length data_field)

-- The address of a symbol's stream, in its buffer of 256 bytes.
unfoldable pub stream_url : List ℕ → List ℕ
stream_url symbol = take 255 (
    codes "wss://stream.binance.com:443/stream?streams="
    ++ (symbol ++ codes "@trade&timeUnit=MICROSECOND"))

-- The event loop, over what each call of websocket_process meets.
unfoldable pub event_loop : Floating → List (World × Option (List Kevent)) → WebSocket → WebSocket
event_loop f [] ws = ws
event_loop f ((w, polled) ∷ turns) ws =
    let (events, ws') = websocket_process f w ws polled in
    let rest = event_loop f turns ws' in
    elim events [
      | none ↦ ws'
      | some n ↦ if is_closed (websocket_get_state (some ws')) then ws' else rest
    ]

-- `main`, given whether the allocations of websocket_create succeed: its exit code, and the
-- WebSocket as it stands when it is freed.
unfoldable pub main :
    Floating
    → Bool
    → Bool
    → List ℕ
    → Dial
    → List (World × Option (List Kevent))
    → ℕ × Option WebSocket
main f calloc calloc_samples symbol d turns = go (websocket_create calloc calloc_samples)
  where
    go : Option WebSocket → ℕ × Option WebSocket
    go none = (1, none)
    go (some created) =
        let listening = websocket_set_on_error (websocket_set_on_message created true) true in
        let (connected, ws) = websocket_connect listening (stream_url symbol) true d in
        if connected
        then (0, some (websocket_destroy (websocket_close (event_loop f turns ws))))
        else (1, some (websocket_destroy ws))
