-- ===== src/Tests/Session.antt =====
-- A URL, a response, a connection that is refused, and samples to sort.
use mathlib.Core.List.{Perm}
use websocket.Prelude.{
  ◌++◌, ℕ, ◌+◌, ◌/◌, ltb, ◌==◌, ◌<◌, ◌≡◌, refl, List, [], ◌++◌, ◌∷◌, ◌++◌, none, some, true, false,
  pos, codes, length, arith, if◌then◌else◌, lacks, strstr, has_prefix, to_lower, atoi, decimal,
  long_to_int, is_space, digits_value, is_digit, strchr,
}
use websocket.Ring.{Ring, read_inline, used, space, clip, write}
use websocket.Io.{io_init, io_add_socket}
use websocket.Ring.Invariant.{IsValid}
use websocket.Ring.Stored.{contents}
use websocket.Ring.Setup.{zeroed, init}
use websocket.Transfer.Session.{in_progress, ssl_cleanup}
use websocket.Frame.Build.{as_memory}
use websocket.Client.{block, WebSocket, closed, connecting, Latency}
use websocket.Client.Url.{UrlParts, parse_url, parse_host, host_end, nearer, parse_path}
use websocket.Client.Url.Roundtrip.{url_text, parse_url_lem}
use websocket.Client.Handshake.{
  generate_websocket_key, handshake_text, send_handshake, complete, is_101, has_upgrade,
  has_connection, contains, parse_handshake_response, find_http, is_http,
}
use websocket.Client.Handshake.Response.{
  IsResponse, parse_handshake_response_lem, parse_handshake_response_stuck,
}
use websocket.Client.Lifecycle.{
  io_freed, unregister, samples_freed, url_freed, has_some, is_open, websocket_destroy,
}
use websocket.Client.Lifecycle.Destroy.{websocket_destroy_lem}
use websocket.Client.Connect.{
  Dial, note_url, conclude, open_all, then_try, open_rings, open_io, open_tcp, open_ssl, register,
  tcp_attempts, tcp_connect, websocket_connect,
}
use websocket.Client.Connect.Opened.{IsOpened, websocket_connect-IsOpened}
use websocket.Client.Observe.{half, Floating, bubble_sort}
use websocket.Client.Observe.Sort.{is_sorted, bubble_sort_lem}
use websocket.Tests.Wire.{live, blocked}

abbrev blank : UrlParts
blank = record { use_ssl = false; host = []; port = pos 0; path = [] }

parse_url_lem_example :
    parse_url (url_text true (codes "a.io") (some (codes "9443")) (codes "/ws?x=1")) 256 1024 blank
    ≡ (
      true,
      record { use_ssl = true; host = codes "a.io"; port = pos 9443; path = codes "/ws?x=1" },
    )
unfolding lacks atoi decimal long_to_int is_space digits_value is_digit
parse_url_lem_example =
    parse_url_lem true (codes "a.io") (some (codes "9443")) (codes "/ws?x=1") 256 1024 blank refl
      refl (omega arith) refl (omega arith) (omega arith)

abbrev response : List ℕ
response = codes "HTTP/1.1 101 OK\r\nUpgrade: websocket\r\nConnection: Upgrade\r\n\r\n"

response-IsResponse : IsResponse response
unfolding lacks is_101 has_upgrade has_connection contains strstr has_prefix to_lower
response-IsResponse = record {
  is_text = refl;
  switching = refl;
  upgrade = refl;
  connection = refl;
  header_end = 56;
  ends = refl;
  whole = refl;
  small = omega arith;
}

abbrev answered : List ℕ → Ring
answered bytes = record {
  base = 4096;
  buf = as_memory bytes;
  size = 128;
  read_ptr = 0;
  write_ptr = length bytes;
  locked = false;
}

answered-IsValid : (bytes : List ℕ) → length bytes < 128 → IsValid (answered bytes)
answered-IsValid bytes h = record {
  nonempty = omega arith;
  small = omega arith;
  read_in = omega arith;
  write_in = h;
}

-- A response and the first bytes of a frame.
abbrev upgraded : WebSocket
upgraded = live (answered (response ++ 129 ∷ 2 ∷ [])) (answered [])

contents-upgraded : contents upgraded.rx_ring ≡ response ++ 129 ∷ 2 ∷ []
unfolding used
contents-upgraded = refl

parse_handshake_response_lem_example :
    let (result, ws') = parse_handshake_response upgraded true in
    (result ≡ complete) × (contents ws'.rx_ring ≡ 129 ∷ 2 ∷ [])
parse_handshake_response_lem_example =
    parse_handshake_response_lem upgraded response (129 ∷ 2 ∷ [])
      (answered-IsValid (response ++ 129 ∷ 2 ∷ []) (omega arith)) (omega arith) contents-upgraded
      response-IsResponse

-- A line end before the response.
abbrev shifted : WebSocket
shifted = live (answered (10 ∷ response)) (answered [])

parse_handshake_response_stuck_example : (parse_handshake_response shifted true).1 ≡ shifted
unfolding find_http is_http has_prefix read_inline
parse_handshake_response_stuck_example =
    parse_handshake_response_stuck shifted true 1 refl (omega arith)

-- No memory for the I/O context.
abbrev refusing : Dial
refusing = record {
  rx_block = some (16384, λ _. 0);
  rx_locks = true;
  tx_block = some (16777216, λ _. 0);
  tx_locks = false;
  malloc = false;
  kqueue = true;
  pinned = false;
  addresses = none;
  ssl = record { calloc = true; malloc = true; new_context = true; set_io_funcs = true };
  peer = record { set_connection = true; set_peer = true; handshake = in_progress };
  fcntl = true;
  kevent = true;
  encoded = none;
  out = blocked;
}

abbrev created : WebSocket
created = record (live zeroed zeroed) { state = closed; fd = none; io_ctx = none; ssl_ctx = none }

abbrev address : List ℕ
address = codes "ws://a.io"

-- Memory, and a connected descriptor.
abbrev accepting : Dial
accepting = record refusing { malloc = true; addresses = some ((some 7, true) ∷ []) }

-- The kqueue does not take the socket.
abbrev unwatched : Dial
unwatched = record accepting { kevent = false }

abbrev aligned : Ring
aligned = record zeroed { base = 256; size = 8 }

websocket_destroy_lem_example :
    let ws' = websocket_destroy (live aligned aligned) in
    (ws'.closed_fds ≡ 5 ∷ 5 ∷ [])
    × (ws'.freed ≡ io_freed (unregister (live aligned aligned)) ++ (block 256 ∷ block 256 ∷ []))
    × (ws'.fd ≡ none)
    × (ws'.ssl_ctx ≡ none)
    × (ws'.io_ctx ≡ none)
    × (ws'.rx_ring.base ≡ 0)
    × (ws'.tx_ring.base ≡ 0)
    × (ws'.url ≡ none)
    × (ws'.latency.samples ≡ none)
unfolding is_open ssl_cleanup samples_freed url_freed
websocket_destroy_lem_example = websocket_destroy_lem (live aligned aligned) 5 refl refl

bubble_sort_lem_example :
    (is_sorted (bubble_sort (3 ∷ 1 ∷ 2 ∷ [])) ≡ true)
    × Perm (bubble_sort (3 ∷ 1 ∷ 2 ∷ [])) (3 ∷ 1 ∷ 2 ∷ [])
bubble_sort_lem_example = bubble_sort_lem (3 ∷ 1 ∷ 2 ∷ [])

-- Integers for doubles, a product with 0.5 as half the number and any other as the number.
abbrev pub whole_numbers : Floating
whole_numbers = record {
  of_integer = λ n. n;
  to_integer = λ n. n;
  add = λ m n. m + n;
  mul = λ m n. if n == half then m / 2 else m;
  div = λ m n. m / n;
  above = λ m n. ltb n m;
}

abbrev three_samples : Latency
three_samples = record { samples = some (30 ∷ 10 ∷ 20 ∷ []); count = 3; capacity = 3; idx = 0 }

created_accepted : (websocket_connect created address true accepting).0 ≡ true
unfolding websocket_connect note_url parse_url has_prefix parse_host strchr host_end nearer
    parse_path conclude open_all then_try open_rings init open_io io_init open_tcp has_some
    tcp_connect tcp_attempts open_ssl register io_add_socket send_handshake write handshake_text
    generate_websocket_key space clip
created_accepted = refl

websocket_connect-IsOpened_example :
    let ws' = (websocket_connect created address true accepting).1 in
    (ws'.state ≡ connecting) × IsOpened ws'
websocket_connect-IsOpened_example =
    websocket_connect-IsOpened created address true accepting created_accepted
