-- ===== src/Client/Url/Roundtrip.antt =====
-- What parse_url makes of the URLs that RFC 6455 describes.
use websocket.Prelude.{
  ℕ, ◌+◌, ◌-◌, ◌≤◌, ◌<◌, ◌≡◌, ◌∙◌, refl, ap, List, [], ◌∷◌, ◌++◌, append_assoc, append-nil, Option,
  none, some, Bool, Bool-cases, inl, inr, true, false, ltb, leb, ◌==◌, ◌||◌, ◌&&◌, if◌then◌else◌,
  length, length-append, take, drop, later-some, take_front, drop_front, drop-add, later, suc, ℤ,
  codes, has_prefix, strchr, atoi, lacks, strchr-append, arith,
}
use websocket.Client.Url.{
  UrlParts, wss_prefix, ws_prefix, nearer, host_end, default_port, parse_port, parse_path,
  parse_host, parse_url,
}

-- The port as it stands in a URL.
abbrev pub port_text : Option (List ℕ) → List ℕ
port_text none = []
port_text (some digits) = b':' ∷ digits

-- The path, with what stands for it when it is empty.
abbrev pub path_or_root : List ℕ → List ℕ
path_or_root [] = codes "/"
path_or_root (c ∷ cs) = c ∷ cs

-- A path is empty or begins with a slash or a question mark.
abbrev pub is_path : List ℕ → Bool
is_path [] = true
is_path (c ∷ cs) = (c == b'/') || (c == b'?')

-- No byte of a host or a port ends it.
abbrev pub is_plain : List ℕ → Bool
is_plain s = lacks b'/' s && lacks b'?' s

nearer-later : (o : Option ℕ) (end : ℕ) → nearer (later o) (suc end) ≡ suc (nearer o end)
unfolding nearer
nearer-later none end = refl
nearer-later (some i) end = ground arith

strchr-later : (c x : ℕ) (s : List ℕ) → (x == c) ≡ false → strchr c (x ∷ s) ≡ later (strchr c s)
unfolding strchr
strchr-later c x s h = rw h

host_end-suc :
    (x : ℕ) (s : List ℕ)
    → (x == b'/') ≡ false
    → (x == b'?') ≡ false
    → host_end (x ∷ s) ≡ suc (host_end s)
unfolding host_end
host_end-suc x s h q =
    rw (strchr-later b'/' x s h, strchr-later b'?' x s q, nearer-later, nearer-later)

nearer_zero : (o : Option ℕ) → nearer o 0 ≡ 0
unfolding nearer
nearer_zero none = refl
nearer_zero (some i) = ground arith

nearer_first : (end : ℕ) → nearer (some 0) end ≡ 0
unfolding nearer
nearer_first end = ground arith

host_end_path : (path : List ℕ) → is_path path ≡ true → host_end path ≡ 0
unfolding host_end strchr
host_end_path [] q = rw (nearer_zero none, nearer_zero none)
host_end_path (c ∷ cs) q = elim (Bool-cases (c == b'/')) [
  | inl slash ↦
      let other : (c == b'?') ≡ false = ground arith in
      rw (slash, other, nearer_first) (nearer_zero (later (strchr b'?' cs)))
  | inr other ↦
      let question : (c == b'?') ≡ true = ground arith in rw (question, other) (nearer_first _)
]

is_plain-tail :
    (x : ℕ) (s : List ℕ)
    → is_plain (x ∷ s) ≡ true
    → ((x == b'/') ≡ false) × ((x == b'?') ≡ false) × (is_plain s ≡ true)
unfolding lacks
is_plain-tail x s h = ground arith

-- The first of either byte is where the path begins.
host_end_lem :
    (s path : List ℕ) → is_plain s ≡ true → is_path path ≡ true → host_end (s ++ path) ≡ length s
host_end_lem [] path p q = host_end_path path q
host_end_lem (x ∷ s) path p q =
    let (h, k, more) = is_plain-tail x s p in
    host_end-suc x (s ++ path) h k ∙ ap suc (host_end_lem s path more q)

-- The port that a URL stands for.
abbrev pub port_of : Bool → Option (List ℕ) → ℤ
port_of use_ssl none = default_port use_ssl
port_of use_ssl (some []) = default_port use_ssl
port_of use_ssl (some (c ∷ cs)) = atoi (c ∷ cs)

parse_path_lem :
    (path : List ℕ) (path_len : ℕ) (u : UrlParts)
    → is_path path ≡ true
    → length (path_or_root path) < path_len
    → parse_path path path_len u ≡ (true, record u { path = path_or_root path })
unfolding parse_path
parse_path_lem [] path_len u q h = ground arith
parse_path_lem (c ∷ cs) path_len u q h = ground arith

strchr_past :
    (c : ℕ) (s t : List ℕ) (i : ℕ) → lacks c s ≡ true → strchr c (s ++ t) ≡ some i → length s ≤ i
unfolding lacks strchr
strchr_past c [] t i h e = omega arith
strchr_past c (x ∷ s) t i h e =
    let other : (x == c) ≡ false = ground arith in
    let more : lacks c s ≡ true = ground arith in
    let (j, there, next) = later-some (strchr c (s ++ t)) i (rw other at e) in
    omega (arith, strchr_past c s t j more there)

parse_port_lem :
    (host digits path : List ℕ) (use_ssl : Bool)
    → length digits ≤ 20
    → parse_port
        (host ++ b':' ∷ (digits ++ path))
        (length host)
        (length (host ++ b':' ∷ digits))
        use_ssl
      ≡ port_of use_ssl (some digits)
unfolding parse_port
parse_port_lem host digits path use_ssl h =
    let end = length (host ++ b':' ∷ digits) in
    let amount : (if ltb end (length host + 1 + 20) then end - (length host + 1) else 20)
        ≡ length digits =
      ground (arith, length-append host (b':' ∷ digits)) in
    rw (amount, drop-add (length host) 1, drop_front, take_front) (by_digits digits)
  where
    by_digits :
        (ds : List ℕ)
        → (if ltb 0 (length ds) then atoi ds else default_port use_ssl) ≡ port_of use_ssl (some ds)
    by_digits [] = refl
    by_digits (c ∷ cs) = ground arith

-- No colon stands before the host's end.
no_port :
    (s : List ℕ) (host_len path_len : ℕ) (u : UrlParts)
    → ((i : ℕ) → strchr b':' s ≡ some i → host_end s ≤ i)
    → host_end s < host_len
    → parse_host s host_len path_len u
      ≡ parse_path
          (drop (host_end s) s)
          path_len
          (record u { host = take (host_end s) s; port = default_port u.use_ssl })
unfolding parse_host
no_port s host_len path_len u none_before room = go (strchr b':' s) refl
  where
    fits : leb host_len (host_end s) ≡ false
    fits = ground arith

    go :
        (o : Option ℕ)
        → strchr b':' s ≡ o
        → parse_host s host_len path_len u
          ≡ parse_path
              (drop (host_end s) s)
              path_len
              (record u { host = take (host_end s) s; port = default_port u.use_ssl })
    go none e = rw (parse_host, e, fits)
    go (some i) e =
        let past : ltb i (host_end s) ≡ false = ground (arith, none_before i e) in
        rw (parse_host, e, past, fits)

with_port :
    (s : List ℕ) (colon host_len path_len : ℕ) (u : UrlParts)
    → strchr b':' s ≡ some colon
    → colon < host_end s
    → colon < host_len
    → parse_host s host_len path_len u
      ≡ parse_path
          (drop (host_end s) s)
          path_len
          (record u { host = take colon s; port = parse_port s colon (host_end s) u.use_ssl })
unfolding parse_host
with_port s colon host_len path_len u e before room =
    let before' : ltb colon (host_end s) ≡ true = ground arith in
    let fits : leb host_len colon ≡ false = ground arith in rw (e, before', fits)

parse_host_lem :
    (host : List ℕ) (port : Option (List ℕ)) (path : List ℕ) (host_len path_len : ℕ) (u : UrlParts)
    → is_plain (host ++ port_text port) ≡ true
    → lacks b':' host ≡ true
    → length (port_text port) ≤ 21
    → is_path path ≡ true
    → length host < host_len
    → length (path_or_root path) < path_len
    → parse_host (host ++ port_text port ++ path) host_len path_len u
      ≡ (true, record u { host = host; port = port_of u.use_ssl port; path = path_or_root path })
parse_host_lem host none path host_len path_len u plain no_colon short p room room' =
    let end : host_end (host ++ path) ≡ length host =
      host_end_lem host path (rw append-nil at plain) p in
    rw append-nil (
      no_port (host ++ path) host_len path_len u
        (λ i e. omega (arith, end, strchr_past b':' host path i no_colon e)) (omega (arith, end))
      ∙ rw (end, drop_front, take_front) (parse_path_lem path path_len _ p room'))
parse_host_lem host (some digits) path host_len path_len u plain no_colon short p room room' =
    let whole = host ++ b':' ∷ digits in
    let end : host_end (whole ++ path) ≡ length whole = host_end_lem whole path plain p in
    let apart : whole ++ path ≡ host ++ b':' ∷ (digits ++ path) =
      append_assoc host (b':' ∷ digits) path in
    let colon : strchr b':' (whole ++ path) ≡ some (length host) =
      ap (strchr b':') apart ∙ strchr-append b':' host (digits ++ path) no_colon in
    with_port (whole ++ path) (length host) host_len path_len u colon
      (omega (arith, end, length-append host (b':' ∷ digits))) room
    ∙ rw (end, drop_front)
        (rw apart (
          rw take_front (
            rw (parse_port_lem host digits path u.use_ssl (omega arith))
              (parse_path_lem path path_len _ p room'))))

-- The text of a URL.
abbrev pub url_text : Bool → List ℕ → Option (List ℕ) → List ℕ → List ℕ
url_text secure host port path =
    (if secure then wss_prefix else ws_prefix) ++ (host ++ port_text port ++ path)

-- A URL of scheme ws or wss parses back to its scheme, host, port and path, whatever stood in the
-- buffers: the host has no colon, slash or question mark and fits its buffer, the port is missing
-- or has at most 20 bytes, none of them a slash or a question mark, and the path is empty, which
-- stands for "/", or begins with a slash or a question mark, and fits its buffer. A missing or
-- empty port is 443 or 80, any other what atoi makes of it, which is strtol's result cut to an int.
pub parse_url_lem :
    (secure : Bool) (host : List ℕ) (port : Option (List ℕ)) (path : List ℕ) (host_len path_len : ℕ)
    (u : UrlParts)
    → is_plain (host ++ port_text port) ≡ true
    → lacks b':' host ≡ true
    → length (port_text port) ≤ 21
    → is_path path ≡ true
    → length host < host_len
    → length (path_or_root path) < path_len
    → parse_url (url_text secure host port path) host_len path_len u ≡ (
      true,
      record {
        use_ssl = secure;
        host = host;
        port = port_of secure port;
        path = path_or_root path;
      },
    )
unfolding parse_url has_prefix
parse_url_lem true host port path host_len path_len u plain no_colon short p room room' =
    parse_host_lem host port path host_len path_len (record u { use_ssl = true }) plain no_colon
      short p room room'
parse_url_lem false host port path host_len path_len u plain no_colon short p room room' =
    parse_host_lem host port path host_len path_len (record u { use_ssl = false }) plain no_colon
      short p room room'
