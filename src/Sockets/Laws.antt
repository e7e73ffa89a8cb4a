-- ===== src/Sockets/Laws.antt =====
-- manager.py: who is connected, and who receives an event.
use pandahub.Prelude.{
  ℕ, ◌≡◌, refl, sym, inl, inr, Bool, true, false, not, ◌&&◌, ◌||◌, List, [], ◌∷◌, arith, any, ◌==◌,
  Bool-cases,
}
use pandahub.Table.{unique}
use pandahub.Sockets.{Entry, Connections, has_socket, add, discard, connect, keep, disconnect}

-- The socket is connected for the user.
abbrev pub is_connected : (user_id websocket : ℕ) → Connections → Bool
is_connected user_id websocket connections =
    any (λ e. e.user_id == user_id && any (λ s. s == websocket) e.sockets) connections

abbrev pub has_user : ℕ → Connections → Bool
has_user user_id connections = any (λ e. e.user_id == user_id) connections

-- A map has one item for a user.
abbrev pub is_map : Connections → Bool
is_map connections = unique (λ a b. b.user_id == a.user_id) connections

known :
    (ws w : ℕ) (sockets : List ℕ)
    → any (λ s. s == ws) sockets ≡ true
    → ((ws == w) || any (λ s. s == w) sockets) ≡ any (λ s. s == w) sockets
known ws w [] h = cc
known ws w (s ∷ sockets) h = ground (arith, known ws w sockets)

any-add :
    (ws w : ℕ) (sockets : List ℕ)
    → any (λ s. s == w) (add ws sockets) ≡ ((ws == w) || any (λ s. s == w) sockets)
unfolding add has_socket
any-add ws w sockets = elim (Bool-cases (any (λ s. s == ws) sockets)) [
  | inl e ↦ rw e (sym (known ws w sockets e))
  | inr e ↦ rw e refl
]

pub any-discard :
    (ws w : ℕ) (sockets : List ℕ)
    → any (λ s. s == w) (discard ws sockets) ≡ (not (ws == w) && any (λ s. s == w) sockets)
unfolding discard
any-discard ws w [] = ground arith
any-discard ws w (s ∷ sockets) = ground (arith, any-discard ws w sockets)

is_connected-connect :
    (u ws user_id websocket : ℕ) (connections : Connections)
    → is_connected u ws (connect user_id websocket connections)
      ≡ ((user_id == u && websocket == ws) || is_connected u ws connections)
unfolding connect
is_connected-connect u ws user_id websocket [] = ground (arith, any-add websocket ws [])
is_connected-connect u ws user_id websocket (e ∷ connections) =
    ground (
      arith,
      any-add websocket ws e.sockets,
      is_connected-connect u ws user_id websocket connections,
    )

pub not_connected :
    (u ws : ℕ) (connections : Connections)
    → has_user u connections ≡ false
    → is_connected u ws connections ≡ false
not_connected u ws [] h = refl
not_connected u ws (e ∷ connections) h = ground (arith, not_connected u ws connections)

is_connected-keep :
    (u ws : ℕ) (e : Entry) (connections : Connections)
    → is_connected u ws (keep e connections)
      ≡ ((e.user_id == u && any (λ s. s == ws) e.sockets) || is_connected u ws connections)
unfolding keep
is_connected-keep u ws e connections = ground arith

is_connected-disconnect :
    (u ws user_id websocket : ℕ) (connections : Connections)
    → is_map connections ≡ true
    → is_connected u ws (disconnect user_id websocket connections)
      ≡ (not (user_id == u && websocket == ws) && is_connected u ws connections)
unfolding disconnect unique
is_connected-disconnect u ws user_id websocket [] h = ground arith
is_connected-disconnect u ws user_id websocket (e ∷ connections) h = ground (
  arith,
  any-discard websocket ws e.sockets,
  is_connected-keep u ws (record e { sockets = discard websocket e.sockets }) connections,
  not_connected u ws connections,
  is_connected-disconnect u ws user_id websocket connections,
)

has_user-connect :
    (u user_id websocket : ℕ) (connections : Connections)
    → has_user u (connect user_id websocket connections)
      ≡ ((user_id == u) || has_user u connections)
unfolding connect
has_user-connect u user_id websocket [] = ground arith
has_user-connect u user_id websocket (e ∷ connections) =
    ground (arith, has_user-connect u user_id websocket connections)

has_user-disconnect :
    (u user_id websocket : ℕ) (connections : Connections)
    → has_user u connections ≡ false
    → has_user u (disconnect user_id websocket connections) ≡ false
unfolding disconnect keep
has_user-disconnect u user_id websocket [] h = refl
has_user-disconnect u user_id websocket (e ∷ connections) h =
    ground (arith, has_user-disconnect u user_id websocket connections)

is_map-connect :
    (user_id websocket : ℕ) (connections : Connections)
    → is_map connections ≡ true
    → is_map (connect user_id websocket connections) ≡ true
unfolding connect unique
is_map-connect user_id websocket [] h = refl
is_map-connect user_id websocket (e ∷ connections) h = ground (
  arith,
  has_user-connect e.user_id user_id websocket connections,
  is_map-connect user_id websocket connections,
)

is_map-disconnect :
    (user_id websocket : ℕ) (connections : Connections)
    → is_map connections ≡ true
    → is_map (disconnect user_id websocket connections) ≡ true
unfolding disconnect unique keep
is_map-disconnect user_id websocket [] h = refl
is_map-disconnect user_id websocket (e ∷ connections) h = ground (
  arith,
  has_user-disconnect e.user_id user_id websocket connections,
  is_map-disconnect user_id websocket connections,
)

-- In a map with one item for a user, connecting adds the socket to those of the user,
-- disconnecting takes it out, and no other user or socket is affected; the map keeps one item for
-- a user.
pub disconnect-connect_lem :
    (user_id websocket : ℕ) (connections : Connections)
    → is_map connections ≡ true
    → ((u ws : ℕ)
        → (is_connected u ws (connect user_id websocket connections)
            ≡ ((user_id == u && websocket == ws) || is_connected u ws connections))
          × (is_connected u ws (disconnect user_id websocket connections)
              ≡ (not (user_id == u && websocket == ws) && is_connected u ws connections)))
      × (is_map (connect user_id websocket connections) ≡ true)
      × (is_map (disconnect user_id websocket connections) ≡ true)
disconnect-connect_lem user_id websocket connections m = (
  λ u ws. (
    is_connected-connect u ws user_id websocket connections,
    is_connected-disconnect u ws user_id websocket connections m,
  ),
  is_map-connect user_id websocket connections m,
  is_map-disconnect user_id websocket connections m,
)
