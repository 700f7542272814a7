-- ===== src/HmacSigner/Tests.antt =====
-- A signature and its checks.
use event_relay.Base.{◌≡◌, ◌≤◌, ◌↔◌, ◌++◌, refl, true, some, Text, codes, arith, length, ◌+◌, ◌*◌}
use event_relay.Base.Decimal.{decimal, decimal_digits, parse_int, parse_int-decimal}
use event_relay.Store.{ok}
use event_relay.Sample.{sample_hmac, sample_bytes}
use event_relay.HmacSigner.{sign, distance, verify}
use event_relay.HmacSigner.Verify.{Platform, digits-Ascii, verify_iff}

platform : Platform sample_hmac sample_bytes
platform = record {
  digest_ascii = λ key text. digits-Ascii _ (decimal_digits (length key * 1000 + length text));
  ascii_bytes = λ s t h e. e;
}

verify_iff_example :
    (verify sample_hmac sample_bytes
        (codes "{}")
        (codes "s3cret")
        (codes "t=9")
        (decimal 1000)
        300
        1200
      ≡ ok true)
    ↔ ((distance 1200 1000 ≤ 300)
        × (codes "t=9" ≡ (sign sample_hmac (codes "{}") (codes "s3cret") 1000).signature))
verify_iff_example =
    verify_iff platform (codes "{}") (codes "s3cret") (codes "t=9") (decimal 1000) 1000 300 1200
      (parse_int-decimal 1000)

-- The toy digest is that of a payload of the same length.
accepted :
    verify sample_hmac sample_bytes
      (codes "[]")
      (codes "s3cret")
      (sign sample_hmac (codes "{}") (codes "s3cret") 1000).signature
      (decimal 1000)
      300
      1200
    ≡ ok true
unfolding verify decimal parse_int event_relay.Base.Decimal.leading_digits
    event_relay.Base.Decimal.digits_value
accepted = refl
