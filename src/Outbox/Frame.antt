-- ===== src/Outbox/Frame.antt =====
-- What the handlers may do to the outbox, as an interface: a statement that outlives each of these steps
-- outlives a transaction made of them, its rollback included.
use event_relay.Base.{◌+◌, ◌≡◌, Bool, List, [], ◌∷◌, ◌++◌, select}
use event_relay.Store.{World, Database, OutboxRecord, StreamMessage, Result, ok, thrown, M, call}
use event_relay.Store.Atomic.{attempt_rule}
use event_relay.Store.Effects.{no_op, rethrow, settle_transaction, begin_commit, with_transaction}
use event_relay.Store.Frame.{Keeps, Leaves, Blind, call-Keeps, continue-Keeps}

-- A row at the end, under an identifier that is drawn for it.
abbrev pub with_outbox : World → List OutboxRecord → World
with_outbox v rows = record v { db = record (v.db) { outbox = rows } }

abbrev pub drew : World → World
drew v = record v { drawn = v.drawn + 1 }

pub record Sound (P : World → Type 0) : Type 0 where
  pub blind : Blind P
  pub to_draw : (v : World) → P v → P (drew v)
  pub to_insert :
      (v : World) (o : OutboxRecord)
      → o.id ≡ v.uuid v.drawn
      → P v
      → P (drew (with_outbox v (v.db.outbox ++ o ∷ [])))

-- What the publisher does besides: a job is added to the streams, and rows are deleted.
pub record Drains (P : World → Type 0) : Type 0 where
  pub to_entries :
      (v : World) (es : List StreamMessage)
      → P v
      → P (record v { redis = record (v.redis) { entries = es }; drawn = v.drawn + 1 })
  pub to_delete :
      (v : World) (test : OutboxRecord → Bool) → P v → P (with_outbox v (select test v.db.outbox))

-- It holds, and it would if the tables were as before.
abbrev pub Both : (World → Type 0) → Database → World → Type 0
Both P before v = P v × P (record v { db = before })

module _ {P : World → Type 0} (s : Sound P) where
  Both-Sound : (before : Database) → Sound (Both P before)
  Both-Sound before = record {
    blind = record {
      to_faults = λ v fs h. (s.blind.to_faults v fs h.0, s.blind.to_faults _ fs h.1);
      to_metrics = λ v m h. (s.blind.to_metrics v m h.0, s.blind.to_metrics _ m h.1);
      to_clock = λ v t h. (s.blind.to_clock v t h.0, s.blind.to_clock _ t h.1);
      to_buckets = λ v bs h. (s.blind.to_buckets v bs h.0, s.blind.to_buckets _ bs h.1);
      to_rows = λ v es ds h. (s.blind.to_rows v es ds h.0, h.1);
    };
    to_draw = λ v h. (s.to_draw v h.0, s.to_draw _ h.1);
    to_insert = λ v o e h. (s.to_insert v o e h.0, s.to_draw _ h.1);
  }

  settle-Both :
      {A : Type 0} (before : Database) (r : Result A × World)
      → Leaves (Both P before) r
      → Leaves P (settle_transaction before r)
  settle-Both before (ok a, v) h = h.0
  settle-Both {A} before (thrown, v) h =
      attempt_rule (λ r. Leaves P (rethrow {A = A} r)) no_op v.faults (record v { db = before })
        (λ fs. s.blind.to_faults _ fs h.1) (λ fs. s.blind.to_faults _ fs h.1)

  -- The rule for transactions: `m` is to keep the pair, whatever the tables were before.
  pub transaction-Keeps :
      {A : Type 0} (m : M A)
      → ((before : Database) → Sound (Both P before) → Keeps (Both P before) m)
      → Keeps P (with_transaction m)
  unfolding with_transaction begin_commit
  transaction-Keeps m k w h =
      continue-Keeps P (call no_op w) _ (call-Keeps s.blind no_op (λ _ i. i) w h) λ _ v g.
        let Q : World → Type 0 = Both P v.db in
        let t : Sound Q = Both-Sound v.db in
        settle-Both v.db _ (
          continue-Keeps Q (call no_op v) _ (call-Keeps t.blind no_op (λ _ i. i) v (g, g)) λ _ x i.
            continue-Keeps Q _ _ (k v.db t x i)
              λ a y j. continue-Keeps Q _ _ (call-Keeps t.blind no_op (λ _ l. l) y j) λ _ z l. l)

-- The publisher's own part outlives a rollback too.
pub Both-Drains :
    {P : World → Type 0} → Sound P → Drains P → (before : Database) → Drains (Both P before)
Both-Drains s d before = record {
  to_entries = λ v es h. (d.to_entries v es h.0, d.to_entries _ es h.1);
  to_delete = λ v test h. (d.to_delete v test h.0, h.1);
}
