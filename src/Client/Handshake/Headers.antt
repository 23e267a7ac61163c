-- ===== src/Client/Handshake/Headers.antt =====
-- The tests of parse_handshake_response on a text that goes on (src/websocket.c).
use websocket.Prelude.{
  ℕ, ◌≤◌, ◌≡◌, refl, ap, List, [], ◌∷◌, ◌++◌, Option, none, some, true, length, codes, strstr,
  to_lower, has_prefix_extends, has_prefix_front, has_prefix_fits, strstr_extends, arith,
}
use websocket.Client.Handshake.{is_http, map_lower, is_101, contains, has_upgrade, has_connection}

pub map_lower-append : (s t : List ℕ) → map_lower (s ++ t) ≡ map_lower s ++ map_lower t
map_lower-append [] t = refl
map_lower-append (c ∷ s) t = ap (λ u. to_lower c ∷ u) (map_lower-append s t)

contains_extends : (p s t : List ℕ) → contains p s ≡ true → contains p (s ++ t) ≡ true
unfolding contains
contains_extends p s t h = go (strstr p s) refl
  where
    go : (o : Option ℕ) → strstr p s ≡ o → contains p (s ++ t) ≡ true
    go none e = absurd (ground (arith, rw (contains, e) at h))
    go (some i) e = rw (contains, strstr_extends p s t i e)

pub has_upgrade_extends : (s t : List ℕ) → has_upgrade s ≡ true → has_upgrade (s ++ t) ≡ true
unfolding has_upgrade
has_upgrade_extends s t h = ground (
  arith,
  contains_extends (codes "upgrade: websocket") s t,
  contains_extends (codes "upgrade:websocket") s t,
)

pub has_connection_extends :
    (s t : List ℕ) → has_connection s ≡ true → has_connection (s ++ t) ≡ true
unfolding has_connection
has_connection_extends s t h = ground (
  arith,
  contains_extends (codes "connection: upgrade") s t,
  contains_extends (codes "connection:upgrade") s t,
)

pub is_101_extends : (s t : List ℕ) → is_101 s ≡ true → is_101 (s ++ t) ≡ true
unfolding is_101
is_101_extends s t h = ground (
  arith,
  has_prefix_extends (codes "HTTP/1.1 101") s t,
  has_prefix_extends (codes "HTTP/1.0 101") s t,
)

pub is_101-is_http : (s : List ℕ) → is_101 s ≡ true → is_http s ≡ true
unfolding is_101 is_http
is_101-is_http s h = ground (
  arith,
  has_prefix_front (codes "HTTP/1.1") (codes " 101") s,
  has_prefix_front (codes "HTTP/1.0") (codes " 101") s,
)

pub is_101_fits : (s : List ℕ) → is_101 s ≡ true → 12 ≤ length s
unfolding is_101
is_101_fits s h =
    ground
      (arith, has_prefix_fits (codes "HTTP/1.1 101") s, has_prefix_fits (codes "HTTP/1.0 101") s)
