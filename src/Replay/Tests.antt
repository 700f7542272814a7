-- ===== src/Replay/Tests.antt =====
-- A replay whose third call fails.
use event_relay.Base.{◌≡◌, true, false, [], ◌∷◌}
use event_relay.Store.{World, ok}
use event_relay.Sample.{world}
use event_relay.Replay.{Response, replay_delivery}
use event_relay.Replay.Effect.{Replays, replay_delivery-Replays}

abbrev faulty : World
faulty = record world { faults = false ∷ false ∷ true ∷ [] }

replay_delivery-Replays_example :
    (answer : Response) × ((replay_delivery 2 faulty).0 ≡ ok answer)
    × Replays 2 world.db answer (replay_delivery 2 faulty).1.db
replay_delivery-Replays_example = replay_delivery-Replays 2 faulty
