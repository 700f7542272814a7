-- ===== src/Scheduler/Tests.antt =====
-- A poll that finds one delivery due.
use event_relay.Base.{ℕ, ◌≤◌, ◌≡◌, refl, Bool, true, false, [], ◌∷◌, length, All, codes, arith}
use event_relay.Store.{World, ok}
use event_relay.Sample.{world}
use event_relay.Scheduler.{poll_and_reenqueue, claim_due, reenqueue}
use event_relay.Scheduler.Poll.{claimed, Polls, poll_and_reenqueue-Polls}
use event_relay.Scheduler.Streamed.{Retried, polled-Retried}
use event_relay.Outbox.NoLoss.{OwnId}
use event_relay.Outbox.Delivered.{drains}

abbrev unlocked : ℕ → Bool
unlocked id = false

-- The fourth call, the INSERT into the outbox, fails.
abbrev faulty : World
faulty = record world { faults = false ∷ false ∷ false ∷ true ∷ [] }

poll_and_reenqueue-Polls_example : Polls unlocked faulty (poll_and_reenqueue false unlocked faulty)
poll_and_reenqueue-Polls_example = poll_and_reenqueue-Polls unlocked faulty

abbrev polled_world : World
polled_world = (poll_and_reenqueue false unlocked world).1

one_polled :
    (poll_and_reenqueue false unlocked world).0
    ≡ ok (record { processed = 1; poked = true; is_polling = false })
unfolding poll_and_reenqueue claim_due reenqueue event_relay.Store.Effects.with_transaction
    event_relay.Base.Sort.sort_by event_relay.EventStatus.sync_event_status
    event_relay.Outbox.insert_outbox
one_polled = refl

polled_calm : polled_world.faults ≡ []
unfolding poll_and_reenqueue claim_due reenqueue event_relay.Store.Effects.with_transaction
    event_relay.Base.Sort.sort_by event_relay.EventStatus.sync_event_status
    event_relay.Outbox.insert_outbox
polled_calm = refl

-- The outbox has the row that was there, 3, and the new one, 100.
polled_apart : All (λ o. OwnId o polled_world.db.outbox) polled_world.db.outbox
unfolding poll_and_reenqueue claim_due reenqueue event_relay.Store.Effects.with_transaction
    event_relay.Base.Sort.sort_by event_relay.EventStatus.sync_event_status
    event_relay.Outbox.insert_outbox
polled_apart = (
  (λ e. refl, (λ e. absurd (omega (arith, e)), tt)),
  ((λ e. absurd (omega (arith, e)), (λ e. refl, tt)), tt),
)

polled_two : length polled_world.db.outbox ≤ 2
unfolding poll_and_reenqueue claim_due reenqueue event_relay.Store.Effects.with_transaction
    event_relay.Base.Sort.sort_by event_relay.EventStatus.sync_event_status
    event_relay.Outbox.insert_outbox
polled_two = omega arith

polled-Retried_example :
    All
      (Retried (codes "deliveries") (drains (codes "deliveries") 2 polled_world))
      (claimed unlocked world)
polled-Retried_example =
    polled-Retried (codes "deliveries") 2 polled_world polled_calm polled_apart polled_two unlocked
      world (record { processed = 1; poked = true; is_polling = false }) one_polled
      (λ e. omega (arith, e)) refl
