-- ===== src/HmacSigner.antt =====
-- backend/src/crypto/hmacSigner.ts: signatures of payloads. `hmac` is `crypto.createHmac('sha256')`
-- with its key and text, in hexadecimal, and `bytes` is `Buffer.from`.
mod Tests
pub mod Verify
use event_relay.Base.{
  ℕ, ◌+◌, ◌-◌, ◌/◌, Bool, true, false, not, ltb, leb, ◌==◌, if◌then◌else◌, Option, none, some, List,
  ◌++◌, Text, codes, length, text_eq,
}
use event_relay.Base.Decimal.{decimal, parse_int}
use event_relay.Store.{Result, ok, thrown}

pub record SignatureHeaders : Type 0 where
  pub timestamp : Text
  pub signature : Text

module _ (hmac : Text → Text → Text) where
  -- `sign`, in a second of the clock.
  unfoldable pub sign : Text → Text → ℕ → SignatureHeaders
  sign payload secret_key timestamp = record {
    timestamp = decimal timestamp;
    signature =
        codes "t="
        ++ (decimal timestamp
            ++ (codes ",v1=" ++ hmac secret_key (decimal timestamp ++ (codes "." ++ payload))));
  }

-- `Math.abs(now - timestamp)`.
abbrev pub distance : ℕ → ℕ → ℕ
distance a b = if leb b a then a - b else b - a

-- `crypto.timingSafeEqual`, which throws on buffers of different lengths.
abbrev pub timing_safe_equal : List ℕ → List ℕ → Result Bool
timing_safe_equal a b = if length a == length b then ok (text_eq a b) else thrown

module _ (hmac : Text → Text → Text) (bytes : Text → List ℕ) where
  -- The comparison of the two signatures: lengths first.
  abbrev pub same_signature : Text → Text → Result Bool
  same_signature expected given =
      if not (length expected == length given)
      then ok false
      else timing_safe_equal (bytes expected) (bytes given)

  -- NaN is no further away than the tolerance, and its signature is made of the text `NaN`.
  unfoldable pub verify_at : Option ℕ → Text → Text → Text → ℕ → ℕ → Result Bool
  unfolding sign
  verify_at none payload secret_key signature_header tolerance now =
      same_signature (codes "t=NaN,v1=" ++ hmac secret_key (codes "NaN." ++ payload))
        signature_header
  verify_at (some timestamp) payload secret_key signature_header tolerance now =
      if ltb tolerance (distance now timestamp)
      then ok false
      else same_signature (sign hmac payload secret_key timestamp).signature signature_header

  -- `verify`: `now` is the clock in seconds.
  unfoldable pub verify : Text → Text → Text → Text → ℕ → ℕ → Result Bool
  unfolding verify_at
  verify payload secret_key signature_header timestamp_header tolerance now =
      verify_at (parse_int timestamp_header) payload secret_key signature_header tolerance now
