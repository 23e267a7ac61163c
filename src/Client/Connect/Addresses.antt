-- ===== src/Client/Connect/Addresses.antt =====
-- The descriptors that tcp_connect obtains (src/websocket.c).
use websocket.Prelude.{ℕ, ◌≡◌, refl, ap, List, [], ◌∷◌, ◌++◌, Option, none, some, Bool, true, false}
use websocket.Transfer.Session.{listed}
use websocket.Client.Connect.{tcp_attempts, tcp_connect}

-- The descriptors that socket() gives, up to the first address that answers.
abbrev pub obtained : List (Option ℕ × Bool) → List ℕ
obtained [] = []
obtained ((none, reached) ∷ addresses) = obtained addresses
obtained ((some fd, true) ∷ addresses) = fd ∷ []
obtained ((some fd, false) ∷ addresses) = fd ∷ obtained addresses

tcp_attempts_lem :
    (addresses : List (Option ℕ × Bool))
    → let (fd, lost) = tcp_attempts addresses in lost ++ listed fd ≡ obtained addresses
unfolding tcp_attempts
tcp_attempts_lem [] = refl
tcp_attempts_lem ((none, reached) ∷ addresses) = tcp_attempts_lem addresses
tcp_attempts_lem ((some fd, true) ∷ addresses) = refl
tcp_attempts_lem ((some fd, false) ∷ addresses) = ap (λ t. fd ∷ t) (tcp_attempts_lem addresses)

-- tcp_connect loses no descriptor: those that socket() gives, up to the first address that answers,
-- are the ones that it closes, in order, and then the one that it returns, if it returns one.
pub tcp_connect_lem :
    (addresses : List (Option ℕ × Bool))
    → let (fd, lost) = tcp_connect (some addresses) in lost ++ listed fd ≡ obtained addresses
unfolding tcp_connect
tcp_connect_lem addresses = tcp_attempts_lem addresses
