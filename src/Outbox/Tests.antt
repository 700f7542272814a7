-- ===== src/Outbox/Tests.antt =====
-- A drain of one row.
use event_relay.Base.{◌≡◌, refl, ◌⊎◌, inl, false, true, [], ◌∷◌, codes, Any, arith}
use event_relay.Store.{World}
use event_relay.Sample.{world, outbox_row}
use event_relay.Outbox.{drain}
use event_relay.Outbox.Batch.{sent, to_send}
use event_relay.Outbox.Drain.{Drained, drain-Drained}
use event_relay.Outbox.Empties.{unlocked}
use event_relay.Outbox.Delivered.{drains, drains_deliver}
use event_relay.Outbox.NoLoss.{Holds, drain_no_loss}

-- The DELETE fails.
abbrev faulty : World
faulty = record world { faults = false ∷ false ∷ false ∷ false ∷ true ∷ [] }

drain-Drained_example :
    Drained (codes "deliveries") unlocked faulty (drain (codes "deliveries") false unlocked faulty)
drain-Drained_example = drain-Drained (codes "deliveries") unlocked faulty

drain_no_loss_example :
    Holds outbox_row (drain (codes "deliveries") false unlocked faulty).1.db.outbox
    ⊎ Any
        (λ m. m ≡ to_send (codes "deliveries") outbox_row)
        (sent (drain (codes "deliveries") false unlocked faulty).1)
drain_no_loss_example =
    drain_no_loss (codes "deliveries") unlocked faulty outbox_row (λ e. refl, tt) (inl refl)

row_delivered :
    Any
      (λ m. m ≡ to_send (codes "deliveries") outbox_row)
      (sent (drains (codes "deliveries") 1 world))
row_delivered =
    drains_deliver (codes "deliveries") 1 world outbox_row refl (omega arith) (λ e. refl, tt)
      (inl refl)
