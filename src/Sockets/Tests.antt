-- ===== src/Sockets/Tests.antt =====
-- Two processes with three sockets.
use pandahub.Prelude.{
  ℕ, ◌≡◌, refl, Bool, true, false, not, ◌&&◌, ◌||◌, [], ◌∷◌, any, ◌==◌, if◌then◌else◌,
}
use pandahub.Table.{unique}
use pandahub.Sockets.{
  Connections, Event, has_socket, add, discard, connect, keep, disconnect, send_all, discard_all,
  deliver_local, publish,
}
use pandahub.Sockets.Laws.{is_connected, is_map}
use pandahub.Sockets.Deliver.{received, publish_lem}

abbrev here : Connections
here =
    record { user_id = 20; sockets = 1 ∷ 2 ∷ [] } ∷ record { user_id = 21; sockets = 3 ∷ [] } ∷ []

abbrev there : Connections
there = record { user_id = 20; sockets = 4 ∷ [] } ∷ []

-- Socket 2 is dead.
abbrev takes : ℕ → Bool
takes ws = if ws == 2 then false else true

abbrev opened : Event
opened = record { user_id = 20; event_type = "issue.opened"; payload = "7" }

program : Unit {0}
unfolding unique has_socket add discard connect keep disconnect send_all discard_all deliver_local
    publish
program = tt

here_map : is_map here ≡ true
unfolding program
here_map = refl

there_map : is_map there ≡ true
unfolding program
there_map = refl

last_socket : disconnect 21 3 here ≡ record { user_id = 20; sockets = 1 ∷ 2 ∷ [] } ∷ []
unfolding program
last_socket = refl

dead_socket :
    (publish takes opened (here ∷ there ∷ [])).1
    ≡ (record { user_id = 20; sockets = 1 ∷ [] } ∷ record { user_id = 21; sockets = 3 ∷ [] } ∷ [])
      ∷ there
      ∷ []
unfolding program
dead_socket = refl

publish_lem_example :
    ((ws : ℕ)
      → received takes opened ws (publish takes opened (here ∷ there ∷ [])).0
        ≡ (takes ws && any (is_connected 20 ws) (here ∷ there ∷ [])))
    × ((u ws : ℕ)
        → any (is_connected u ws) (publish takes opened (here ∷ there ∷ [])).1
          ≡ ((takes ws || not (u == 20)) && any (is_connected u ws) (here ∷ there ∷ [])))
publish_lem_example = publish_lem takes opened (here ∷ there ∷ []) (here_map, (there_map, tt))
