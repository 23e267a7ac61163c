-- ===== src/Client/Url.antt =====
-- parse_url (src/websocket.c). The URL and the buffers' contents are C strings; the pointers are
-- never NULL in this program. A failure leaves what was stored so far.
pub mod Roundtrip
use websocket.Prelude.{
  ℕ, ◌+◌, ◌-◌, List, [], ◌∷◌, ◌++◌, Option, none, some, Bool, true, false, ltb, leb, ◌==◌, ◌||◌,
  min, if◌then◌else◌, length, take, drop, ℤ, pos, codes, has_prefix, strchr, atoi,
}

-- What parse_url stores.
pub record UrlParts : Type 0 where
  pub use_ssl : Bool
  pub host : List ℕ
  pub port : ℤ
  pub path : List ℕ

abbrev pub wss_prefix : List ℕ
wss_prefix = codes "wss://"

abbrev pub ws_prefix : List ℕ
ws_prefix = codes "ws://"

-- `if (p && p < host_end) host_end = p`
unfoldable pub nearer : Option ℕ → ℕ → ℕ
nearer none end = end
nearer (some i) end = if ltb i end then i else end

-- Where the host and the port end.
unfoldable pub host_end : List ℕ → ℕ
host_end s = nearer (strchr b'?' s) (nearer (strchr b'/' s) (length s))

unfoldable pub default_port : Bool → ℤ
default_port use_ssl = if use_ssl then pos 443 else pos 80

-- The port between the colon and the host's end, of at most 20 bytes.
unfoldable pub parse_port : List ℕ → ℕ → ℕ → Bool → ℤ
parse_port s colon end use_ssl =
    let port_len = if ltb end (colon + 1 + 20) then end - (colon + 1) else 20 in
    if ltb 0 port_len then atoi (take port_len (drop (colon + 1) s)) else default_port use_ssl

-- The path, from the host's end on.
unfoldable pub parse_path : List ℕ → ℕ → UrlParts → Bool × UrlParts
parse_path rest path_len u = go rest
  where
    bare : Bool × UrlParts
    bare = if ltb path_len 2 then (false, u) else (true, record u { path = codes "/" })

    go : List ℕ → Bool × UrlParts
    go [] = bare
    go (c ∷ cs) =
        if (c == b'/') || (c == b'?')
        then (if leb path_len (length rest) then (false, u) else (true, record u { path = rest }))
        else bare

-- The host, the port and the path of what follows the scheme.
unfoldable pub parse_host : List ℕ → ℕ → ℕ → UrlParts → Bool × UrlParts
parse_host s host_len path_len u = go (strchr b':' s)
  where
    end : ℕ
    end = host_end s

    without_port : Bool × UrlParts
    without_port =
        if leb host_len end
        then (false, u)
        else parse_path (drop end s) path_len
            (record u { host = take end s; port = default_port u.use_ssl })

    go : Option ℕ → Bool × UrlParts
    go none = without_port
    go (some colon) =
        if ltb colon end
        then (if leb host_len colon
            then (false, u)
            else parse_path (drop end s) path_len
                (record u { host = take colon s; port = parse_port s colon end u.use_ssl }))
        else without_port

-- `parse_url`: whether it returns 0, and what stands in the buffers.
unfoldable pub parse_url : List ℕ → ℕ → ℕ → UrlParts → Bool × UrlParts
parse_url url host_len path_len u =
    if has_prefix wss_prefix url
    then parse_host (drop 6 url) host_len path_len (record u { use_ssl = true })
    else if has_prefix ws_prefix url
    then parse_host (drop 5 url) host_len path_len (record u { use_ssl = false })
    else (false, record u { use_ssl = false })
