-- ===== src/Http.antt =====
-- What the handlers of backend/src read of an HTTP request, and the answers that they share.
use event_relay.Base.{ℕ, Option, List, Text}

-- `header` is Express's `req.header`, `query` is `req.query`, and `ip` is `req.ip`.
pub record Request : Type 0 where
  pub header : Text → Option Text
  pub query : Text → Option Text
  pub ip : Option Text

-- `res.status(status).json({ error })`, with the headers that were set before.
pub record Reply : Type 0 where
  pub status : ℕ
  pub headers : List (Text × Text)
  pub error : Text

-- What a middleware does: `next()`, or an answer.
pub data Gate : Type 0 where
  next : List (Text × Text) → Gate
  answered : Reply → Gate
