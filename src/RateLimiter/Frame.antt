-- ===== src/RateLimiter/Frame.antt =====
-- What the limiter leaves alone.
use event_relay.Base.{ℕ, Bool, Text}
use event_relay.Store.{World}
use event_relay.Store.Frame.{Keeps, Blind, call-Keeps, recover-Keeps}
use event_relay.Metrics.{inc_rate_limiter_error}
use event_relay.RateLimiter.{consume}

pub consume-Keeps :
    {P : World → Type 0} (b : Blind P) (fail_closed : Bool) (key : Text) (capacity rate : ℕ)
    → Keeps P (consume fail_closed key capacity rate)
unfolding consume inc_rate_limiter_error
consume-Keeps {P} b fail_closed key capacity rate w h =
    recover-Keeps P _ _ (call-Keeps b _ (λ v g. b.to_buckets v _ g) w h) (λ v g. b.to_metrics v _ g)
