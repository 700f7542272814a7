-- ===== src/Auth/Authorized.antt =====
-- Which requests backend/src/middleware/auth.ts lets through, said without its order of tests.
use event_relay.Base.{
  ℕ, ◌≡◌, refl, sym, ◌⊎◌, inl, inr, Bool, true, false, ==_self, Bool-cases, Option, none, some,
  List, [], Text, codes, text_eq_iff, text_eq_self, or_null, length, arith,
}
use event_relay.Http.{Request, Gate, next, answered}
use event_relay.Auth.{KeyConfig, provided_key, compare_key, differs, with_key, require_api_key}

-- The key that a request presents.
abbrev pub presented : Request → Option Text
presented req =
    or_null (provided_key (req.header (codes "X-API-Key")) (req.header (codes "Authorization")))

module _ (bytes : Text → List ℕ) where
  -- No key is configured and this is not production; or the request presents a key whose bytes are
  -- those of the configured key.
  abbrev pub Authorized : KeyConfig → Request → Type 0
  Authorized config req =
      ((or_null config.api_key ≡ none) × (config.production ≡ false))
      ⊎ ((key : Text) × (given : Text) × (or_null config.api_key ≡ some key)
          × (presented req ≡ some given)
          × (bytes given ≡ bytes key))

  -- The status of the answer to a request that is not let through.
  abbrev pub Denied : KeyConfig → Request → ℕ → Type 0
  Denied config req status =
      ((or_null config.api_key ≡ none) × (config.production ≡ true) × (status ≡ 500))
      ⊎ (((key : Text) × (or_null config.api_key ≡ some key)
            × (presented req ≡ none)
            × (status ≡ 401))
          ⊎ ((key : Text) × (given : Text) × (or_null config.api_key ≡ some key)
              × (presented req ≡ some given)
              × (¬ (bytes given ≡ bytes key))
              × (status ≡ 403)))

  -- What the middleware does is right.
  abbrev pub Judged : KeyConfig → Request → Gate → Type 0
  Judged config req (next headers) = (headers ≡ []) × Authorized config req
  Judged config req (answered reply) = Denied config req reply.status

  same_bytes : (a b : Text) → differs bytes a b ≡ false → bytes b ≡ bytes a
  same_bytes a b h = sym ((text_eq_iff (bytes a) (bytes b)).0 (ground (arith, h)))

  other_bytes : (a b : Text) → differs bytes a b ≡ true → ¬ (bytes b ≡ bytes a)
  other_bytes a b h e =
      let same : differs bytes a b ≡ false =
        rw (e, ==_self (length (bytes a)), text_eq_self (bytes a)) refl in
      cc

  module _ (config : KeyConfig) (req : Request) where
    compared-Judged :
        (key : Text)
        → or_null config.api_key ≡ some key
        → (given : Option Text) → presented req ≡ given
        → Judged config req (compare_key bytes key given)
    compared-Judged key e none h = inr (inl (key, e, h, refl))
    compared-Judged key e (some given) h = elim (Bool-cases (differs bytes key given)) [
      | inl t ↦ rw t (inr (inr (key, given, e, h, other_bytes key given t, refl)))
      | inr t ↦ rw t (refl, inr (key, given, e, h, same_bytes key given t))
    ]

    keyed-Judged :
        (key : Option Text)
        → or_null config.api_key ≡ key
        → (production : Bool) → config.production ≡ production
        → Judged config req (with_key bytes production key req)
    keyed-Judged none e true p = inl (e, p, refl)
    keyed-Judged none e false p = (refl, inl (e, p))
    keyed-Judged (some key) e production p = compared-Judged key e (presented req) refl

    -- A request is let through, with no header set, if no key is configured outside production or it
    -- presents a key with the bytes of the configured one; else it is answered 500, 401 or 403, for no
    -- key configured in production, no key presented, or a key with other bytes.
    pub require_api_key-Judged : Judged config req (require_api_key bytes config req)
    unfolding require_api_key
    require_api_key-Judged = keyed-Judged (or_null config.api_key) refl config.production refl
