-- ===== src/System/History.antt =====
-- What may happen to the backend, step by step, and that no job is lost on the way to the streams.
use event_relay.Base.{
  ℕ, ◌+◌, ◌≤◌, ◌≡◌, refl, ◌⊎◌, inl, inr, Bool, false, Option, some, List, [], ◌∷◌, length, All,
  Any-append_left, Text, or_null,
}
use event_relay.Store.{World, OutboxRecord, DeliveryJob, ok}
use event_relay.Store.Frame.{Leaves_world}
use event_relay.Outbox.{drain}
use event_relay.Outbox.Batch.{sent, to_send}
use event_relay.Outbox.Drain.{drain-Drained}
use event_relay.Outbox.NoLoss.{Holds, drain_no_loss}
use event_relay.Outbox.Delivered.{drains, drains_reach, drains_keep, held_has}
use event_relay.Outbox.Frame.{Sound}
use event_relay.Outbox.Numbered.{Kept, Kept-Sound, Kept-Drains, Distinct-OwnId}
use event_relay.Ingest.{IngestRequest, created, ingest_event}
use event_relay.Ingest.Atomic.{targets}
use event_relay.Ingest.Streamed.{Streamed, Reached, Reached-Streamed}
use event_relay.Scheduler.{poll_and_reenqueue}
use event_relay.Replay.{replay_delivery}
use event_relay.Worker.{Env, process_job}
use event_relay.System.Writers.{ingest_event-Keeps, poll-Keeps, replay_delivery-Keeps, drain-Keeps}
use event_relay.System.Jobs.{BlindToJobs, process_job-Keeps}

-- A request to post an event or to replay a delivery, a poll or a drain beside the rows that others
-- hold, a job, a while that passes, and another schedule of failing calls.
pub data Act : Type 0 where
  posted : Option Text → Option IngestRequest → Act
  replayed : ℕ → Act
  polled : (ℕ → Bool) → Act
  drained : (ℕ → Bool) → Act
  worked : ℕ → Text → DeliveryJob → Act
  waited : ℕ → Act
  disturbed : List Bool → Act

module _ (env : Env) where
  -- The pollers' flags are down again after each run, so each finds its own down.
  unfoldable pub act : Act → World → World
  unfolding ingest_event replay_delivery poll_and_reenqueue drain process_job
  act (posted key request) w = (ingest_event key request w).1
  act (replayed id) w = (replay_delivery id w).1
  act (polled locked) w = (poll_and_reenqueue false locked w).1
  act (drained locked) w = (drain env.base_stream false locked w).1
  act (worked message_id stream job) w = (process_job env message_id stream job w).1
  act (waited ms) w = record w { now = w.now + ms }
  act (disturbed faults) w = record w { faults = faults }

  unfoldable pub history : List Act → World → World
  unfolding act
  history [] w = w
  history (a ∷ as') w = history as' (act a w)

  -- What is sound for the outbox, and blind to the streams, outlives all but a drain.
  act-Sound :
      (P : World → Type 0)
      → Sound P
      → BlindToJobs P
      → ((locked : ℕ → Bool) (w : World) → P w → P (drain env.base_stream false locked w).1)
      → (a : Act) (w : World) → P w
      → P (act a w)
  unfolding act
  act-Sound P s j d (posted key request) w h =
      Leaves_world P _ (ingest_event-Keeps s key request w h)
  act-Sound P s j d (replayed id) w h = Leaves_world P _ (replay_delivery-Keeps s id w h)
  act-Sound P s j d (polled locked) w h = Leaves_world P _ (poll-Keeps s false locked w h)
  act-Sound P s j d (drained locked) w h = d locked w h
  act-Sound P s j d (worked message_id stream job) w h =
      Leaves_world P _ (process_job-Keeps s.blind j env message_id stream job w h)
  act-Sound P s j d (waited ms) w h = s.blind.to_clock w _ h
  act-Sound P s j d (disturbed faults) w h = s.blind.to_faults w faults h

  module _ (uuid : ℕ → ℕ) (apart : (i j : ℕ) → uuid i ≡ uuid j → i ≡ j) where
    act-Kept : (a : Act) (w : World) → Kept uuid w → Kept uuid (act a w)
    act-Kept =
        act-Sound (Kept uuid) (Kept-Sound uuid apart)
          (record {
            to_posts = λ v ps h. h;
            to_acknowledged = λ v ms h. h;
            breakers = record { to_breakers = λ v rs h. h };
          })
          λ locked w h. Leaves_world (Kept uuid) _ (
            drain-Keeps (Kept-Sound uuid apart) (Kept-Drains uuid apart) env.base_stream false
              locked w h)

    pub history-Kept : (as' : List Act) (w : World) → Kept uuid w → Kept uuid (history as' w)
    unfolding history
    history-Kept [] w h = h
    history-Kept (a ∷ as') w h = history-Kept as' (act a w) (act-Kept a w h)

    module _ (o : OutboxRecord) where
      -- The row is in the outbox, or its job is on its stream.
      abbrev pub Secured : World → Type 0
      Secured v = Kept uuid v × (Holds o v.db.outbox ⊎ Reached env.base_stream v o)

      Secured-Sound : Sound Secured
      Secured-Sound = record {
        blind = record {
          to_faults = λ v fs h. h;
          to_metrics = λ v m h. h;
          to_clock = λ v t h. h;
          to_buckets = λ v bs h. h;
          to_rows = λ v es ds h. h;
        };
        to_draw = λ v h. ((Kept-Sound uuid apart).to_draw v h.0, h.1);
        to_insert = λ v p e h. (
          (Kept-Sound uuid apart).to_insert v p e h.0,
          elim h.1 [
            | inl held ↦ inl (Any-append_left (λ x. x ≡ o) v.db.outbox (p ∷ []) held)
            | inr there ↦ inr there
          ],
        );
      }

      drain-Secured :
          (locked : ℕ → Bool) (w : World)
          → Secured w
          → Secured (drain env.base_stream false locked w).1
      drain-Secured locked w h = (
        act-Kept_drain,
        elim h.1 [
          | inl held ↦
              drain_no_loss env.base_stream locked w o
                (held_has _ o w.db.outbox (Distinct-OwnId w.db.outbox h.0.1.0) held) held
          | inr there ↦
              let (k, c, _, more, _) = drain-Drained env.base_stream locked w in
              inr (rw more (Any-append_left (λ m. m ≡ to_send env.base_stream o) (sent w) _ there))
        ],
      )
        where
          act-Kept_drain : Kept uuid (drain env.base_stream false locked w).1
          act-Kept_drain = Leaves_world (Kept uuid) _ (
              drain-Keeps (Kept-Sound uuid apart) (Kept-Drains uuid apart) env.base_stream false
                locked w h.0)

      history-Secured : (as' : List Act) (w : World) → Secured w → Secured (history as' w)
      unfolding history
      history-Secured [] w h = h
      history-Secured (a ∷ as') w h = history-Secured as' (act a w) (
          act-Sound Secured Secured-Sound
            (record {
              to_posts = λ v ps i. i;
              to_acknowledged = λ v ms i. i;
              breakers = record { to_breakers = λ v rs i. i };
            })
            drain-Secured a w h)

      -- Afterwards, where no call fails, the drains take it to its stream.
      pub Secured-Reached :
          (v : World) (n : ℕ)
          → v.faults ≡ []
          → length v.db.outbox ≤ n
          → Secured v
          → Reached env.base_stream (drains env.base_stream n v) o
      Secured-Reached v n calm enough h = elim h.1 [
        | inl held ↦
            drains_reach env.base_stream n v o calm enough (Distinct-OwnId v.db.outbox h.0.1.0) held
        | inr there ↦ drains_keep env.base_stream n v (to_send env.base_stream o) there
      ]

-- No call fails from here on.
abbrev pub calmed : World → World
calmed v = record v { faults = [] }

module _ (env : Env) (before after : List Act) (w : World) (c : ℕ) (key : Text)
    (request : IngestRequest) where
  -- The event is posted after some acts, and others follow.
  abbrev pub posted_between : World
  posted_between =
      history env (posted (some (c ∷ key)) (some request) ∷ after) (history env before w)

  -- No event is lost. In a history that begins with an empty outbox and in which no UUID repeats,
  -- whatever happens before an event is answered 201 and whatever happens after it, whichever calls
  -- fail: once no call fails any more, as many drains as the outbox has rows, or more, with no row held
  -- by another transaction, leave on the stream of the event's ordering key a job of the event in its
  -- first attempt for each of its targets.
  pub history-Streamed :
      (id m n : ℕ)
      → ((i j : ℕ) → w.uuid i ≡ w.uuid j → i ≡ j)
      → w.db.outbox ≡ []
      → (ingest_event (some (c ∷ key)) (some request) (history env before w)).0 ≡ ok (created id m)
      → length posted_between.db.outbox ≤ n
      → All
          (Streamed env.base_stream id
            (or_null request.ordering_key)
            (drains env.base_stream n (calmed posted_between)))
          (targets request (history env before w).db)
  unfolding history act
  history-Streamed id m n apart fresh answered enough =
      Reached-Streamed env.base_stream c key request (history env before w) id m answered
        (drains env.base_stream n (calmed posted_between))
        λ o held.
          Secured-Reached env w.uuid apart o (calmed posted_between) n refl enough
            (history-Secured env w.uuid apart o after _ (kept, inl held))
    where
      kept : Kept w.uuid (act env (posted (some (c ∷ key)) (some request)) (history env before w))
      kept =
          act-Kept env w.uuid apart (posted (some (c ∷ key)) (some request)) (history env before w)
            (history-Kept env w.uuid apart before w (refl, rw fresh (tt, tt)))
