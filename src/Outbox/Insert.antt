-- ===== src/Outbox/Insert.antt =====
-- What an INSERT into the outbox leaves.
use event_relay.Base.{◌≡◌, refl, Option, [], ◌∷◌, ◌++◌, Text}
use event_relay.Store.{World, Database, OutboxRecord, DeliveryJob}
use event_relay.Store.Atomic.{Returns, call-Returns}
use event_relay.Outbox.{insert_outbox, job_of}

-- One row more, at the end, that announces the job under the key.
abbrev pub Announced : DeliveryJob → Option Text → Database → World → Type 0
Announced job key db w =
    (o : OutboxRecord) × (w.db ≡ record db { outbox = db.outbox ++ o ∷ [] })
    × (job_of o ≡ job)
    × (o.ordering_key ≡ key)

pub insert_outbox-Returns :
    (job : DeliveryJob) (key : Option Text) (w : World)
    → Returns (λ _. Announced job key w.db) (insert_outbox job key w)
unfolding insert_outbox
insert_outbox-Returns job key w =
    call-Returns (λ _. Announced job key w.db) _ w (λ rest. (_, refl, refl, refl))
