-- ===== src/Sockets/Deliver.antt =====
-- manager.py: who receives an event, and which sockets stay.
use pandahub.Prelude.{
  ℕ, ◌≡◌, refl, ap, ◌∙◌, Bool, true, not, ◌&&◌, ◌||◌, List, [], ◌∷◌, ◌++◌, arith, any, All, ◌==◌,
}
use pandahub.Table.{unique}
use pandahub.Sockets.{
  Connections, Event, Sent, discard, send_all, discard_all, deliver_local, publish,
}
use pandahub.Sockets.Laws.{is_connected, has_user, is_map, any-discard, not_connected}

module _ (takes : ℕ → Bool) (event : Event) where
  abbrev pub received : (websocket : ℕ) → List Sent → Bool
  received websocket sent = any (λ m. m.socket == websocket) sent

  takes_same : (a b : ℕ) → (a == b) ≡ true → takes a ≡ takes b
  takes_same a b h = ap takes (ground arith)

  received-send_all :
      (ws : ℕ) (sockets : List ℕ)
      → received ws (send_all takes event sockets).0 ≡ (takes ws && any (λ s. s == ws) sockets)
  unfolding send_all
  received-send_all ws [] = ground arith
  received-send_all ws (s ∷ sockets) = ground (arith, takes_same s ws, received-send_all ws sockets)

  dead-send_all :
      (ws : ℕ) (sockets : List ℕ)
      → any (λ s. s == ws) (send_all takes event sockets).1
        ≡ (not (takes ws) && any (λ s. s == ws) sockets)
  unfolding send_all
  dead-send_all ws [] = ground arith
  dead-send_all ws (s ∷ sockets) = ground (arith, takes_same s ws, dead-send_all ws sockets)

  any-discard_all :
      (ws : ℕ) (dead sockets : List ℕ)
      → any (λ s. s == ws) (discard_all takes dead sockets)
        ≡ (not (any (λ s. s == ws) dead) && any (λ s. s == ws) sockets)
  unfolding discard_all
  any-discard_all ws [] sockets = refl
  any-discard_all ws (d ∷ dead) sockets =
      any-discard_all ws dead (discard d sockets) ∙ ground (arith, any-discard d ws sockets)

  same_user :
      (a b : ℕ) (connections : Connections)
      → (a == b) ≡ true
      → has_user a connections ≡ has_user b connections
  same_user a b connections h = ap (λ u. has_user u connections) (ground arith)

  received-deliver_local :
      (ws : ℕ) (connections : Connections)
      → is_map connections ≡ true
      → received ws (deliver_local takes event connections).0
        ≡ (takes ws && is_connected event.user_id ws connections)
  unfolding deliver_local unique
  received-deliver_local ws [] h = ground arith
  received-deliver_local ws (e ∷ connections) h = ground (
    arith,
    received-send_all ws e.sockets,
    not_connected event.user_id ws connections,
    same_user e.user_id event.user_id connections,
    received-deliver_local ws connections,
  )

  is_connected-deliver_local :
      (u ws : ℕ) (connections : Connections)
      → is_map connections ≡ true
      → is_connected u ws (deliver_local takes event connections).1
        ≡ ((takes ws || not (u == event.user_id)) && is_connected u ws connections)
  unfolding deliver_local unique
  is_connected-deliver_local u ws [] h = ground arith
  is_connected-deliver_local u ws (e ∷ connections) h = ground (
    arith,
    dead-send_all ws e.sockets,
    any-discard_all ws (send_all takes event e.sockets).1 e.sockets,
    not_connected u ws connections,
    same_user e.user_id u connections,
    is_connected-deliver_local u ws connections,
  )

  any-++ : (ws : ℕ) (a b : List Sent) → received ws (a ++ b) ≡ (received ws a || received ws b)
  any-++ ws [] b = refl
  any-++ ws (x ∷ a) b = ground (arith, any-++ ws a b)

  -- If each process has one item for a user: an event that is published reaches exactly the
  -- sockets that are connected for its user in some process and still take a text. Afterwards a
  -- socket is connected in some process if it was, unless it is of the event's user and takes no
  -- text.
  pub publish_lem :
      (processes : List Connections)
      → All (λ connections. is_map connections ≡ true) processes
      → ((ws : ℕ)
          → received ws (publish takes event processes).0
            ≡ (takes ws && any (is_connected event.user_id ws) processes))
        × ((u ws : ℕ)
            → any (is_connected u ws) (publish takes event processes).1
              ≡ ((takes ws || not (u == event.user_id)) && any (is_connected u ws) processes))
  unfolding publish
  publish_lem [] h = (λ ws. ground arith, λ u ws. ground arith)
  publish_lem (connections ∷ processes) h =
      let rest = publish_lem processes h.1 in
      (
        λ ws.
            any-++ ws (deliver_local takes event connections).0 (publish takes event processes).0
            ∙ ground (arith, received-deliver_local ws connections h.0, rest.0 ws),
        λ u ws. ground (arith, is_connected-deliver_local u ws connections h.0, rest.1 u ws),
      )
