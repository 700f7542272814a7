-- ===== src/HmacSigner/Verify.antt =====
-- `verify` of backend/src/crypto/hmacSigner.ts: what it accepts.
use event_relay.Base.{
  ℕ, ◌≤◌, ◌<◌, ◌≡◌, refl, sym, ◌↔◌, Bool, true, false, some, List, [], ◌∷◌, ◌++◌, Text, codes,
  length, arith, text_eq_iff, text_eq_self, ◌==◌, ==_self, Bool-cases, inl, inr, ltb, All,
  All-append,
}
use event_relay.Base.Decimal.{is_digit, decimal, decimal_digits, parse_int, parse_int-decimal}
use event_relay.Store.{ok, thrown}
use event_relay.HmacSigner.{sign, distance, timing_safe_equal, same_signature, verify}

abbrev pub Ascii : Text → Type 0
Ascii s = All (λ c. c < 128) s

-- What the code relies on: a digest is written in ASCII (it is hexadecimal), and no other text is
-- encoded as an ASCII text is.
pub record Platform (hmac : Text → Text → Text) (bytes : Text → List ℕ) : Type 0 where
  pub digest_ascii : (key text : Text) → Ascii (hmac key text)
  pub ascii_bytes : (s t : Text) → Ascii s → bytes t ≡ bytes s → t ≡ s

pub digits-Ascii : (s : Text) → All (λ c. is_digit c ≡ true) s → Ascii s
digits-Ascii [] h = tt
digits-Ascii (c ∷ s) (e, h) = (ground arith, digits-Ascii s h)

module _ {hmac : Text → Text → Text} {bytes : Text → List ℕ} (platform : Platform hmac bytes) where
  signature-Ascii :
      (payload secret_key : Text) (t : ℕ) → Ascii (sign hmac payload secret_key t).signature
  unfolding sign
  signature-Ascii payload secret_key t =
      All-append (λ c. c < 128) (codes "t=") _ (omega arith, (omega arith, tt))
        (All-append (λ c. c < 128) (decimal t) _ (digits-Ascii (decimal t) (decimal_digits t))
          (All-append (λ c. c < 128) (codes ",v1=") _
            (omega arith, (omega arith, (omega arith, (omega arith, tt))))
            (platform.digest_ascii secret_key _)))

  timing_safe_equal_iff : (a b : List ℕ) → (timing_safe_equal a b ≡ ok true) ↔ (b ≡ a)
  timing_safe_equal_iff a b = (
    λ e. elim (Bool-cases (length a == length b)) [
      | inl same ↦ sym ((text_eq_iff a b).0 (ok_true (rw same at e)))
      | inr other ↦ absurd (let h : thrown ≡ ok true = rw other at e in cc)
    ],
    λ e. rw (e, ==_self (length a), text_eq_self a) refl,
  )
    where
      ok_true : {x : Bool} → ok x ≡ ok true → x ≡ true
      ok_true e = cc

  same_signature_iff :
      (expected given : Text)
      → Ascii expected
      → (same_signature hmac bytes expected given ≡ ok true) ↔ (given ≡ expected)
  same_signature_iff expected given h = (
    λ e. elim (Bool-cases (length expected == length given)) [
      | inl same ↦
          platform.ascii_bytes expected given h
            ((timing_safe_equal_iff (bytes expected) (bytes given)).0 (rw same at e))
      | inr other ↦ absurd (let h : ok false ≡ ok true = rw other at e in cc)
    ],
    λ e. rw (e, ==_self (length expected)) ((timing_safe_equal_iff (bytes expected) _).1 refl),
  )

  -- With a digest and an encoding as `Platform` has them, and a timestamp header that reads as the
  -- second t, the signature header is accepted exactly if t is within the tolerance of the clock and the header is the signature that `sign` makes for t.
  pub verify_iff :
      (payload secret_key signature_header timestamp_header : Text) (t tolerance now : ℕ)
      → parse_int timestamp_header ≡ some t
      → (verify hmac bytes payload secret_key signature_header timestamp_header tolerance now
          ≡ ok true)
        ↔ ((distance now t ≤ tolerance)
            × (signature_header ≡ (sign hmac payload secret_key t).signature))
  unfolding verify
  verify_iff payload secret_key signature_header timestamp_header t tolerance now e =
      rw e (elim (Bool-cases (ltb tolerance (distance now t))) [
        | inl far ↦ rw far (λ h. absurd (cc), λ h. absurd (ground arith))
        | inr near ↦ rw near (
          λ h. (
            ground arith,
            (same_signature_iff _ signature_header (signature-Ascii payload secret_key t)).0 h,
          ),
          λ h. (same_signature_iff _ signature_header (signature-Ascii payload secret_key t)).1 h.1,
        )
      ])

  -- With a digest and an encoding as `Platform` has them, what `sign` returns for the second t is
  -- accepted, if t is within the tolerance of the clock.
  pub verify-sign :
      (payload secret_key : Text) (t tolerance now : ℕ)
      → distance now t ≤ tolerance
      → verify hmac bytes payload secret_key
          (sign hmac payload secret_key t).signature
          (sign hmac payload secret_key t).timestamp
          tolerance
          now
        ≡ ok true
  unfolding sign
  verify-sign payload secret_key t tolerance now near =
      (verify_iff payload secret_key (sign hmac payload secret_key t).signature (decimal t) t
          tolerance now (parse_int-decimal t)).1
        (near, refl)

  append_cancel : (p s t : Text) → p ++ s ≡ p ++ t → s ≡ t
  append_cancel [] s t e = e
  append_cancel (c ∷ p) s t e = append_cancel p s t (cc)

  -- With a digest and an encoding as `Platform` has them, a signature made in the second t for one payload and secret is accepted for another payload and
  -- secret, under a timestamp header that reads as t, only if the two have the same HMAC.
  pub verify_same_mac :
      (payload secret_key payload' secret_key' timestamp_header : Text) (t tolerance now : ℕ)
      → parse_int timestamp_header ≡ some t
      → verify hmac bytes payload' secret_key'
          (sign hmac payload secret_key t).signature
          timestamp_header
          tolerance
          now
        ≡ ok true
      → hmac secret_key (decimal t ++ (codes "." ++ payload))
        ≡ hmac secret_key' (decimal t ++ (codes "." ++ payload'))
  unfolding sign
  verify_same_mac payload secret_key payload' secret_key' timestamp_header t tolerance now e h =
      let same : (sign hmac payload secret_key t).signature
          ≡ (sign hmac payload' secret_key' t).signature =
        ((verify_iff payload' secret_key' _ timestamp_header t tolerance now e).0 h).1 in
      append_cancel (codes ",v1=") _ _
        (append_cancel (decimal t) _ _ (append_cancel (codes "t=") _ _ same))
