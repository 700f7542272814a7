-- ===== src/Ssrf/Safety.antt =====
-- `validateEndpointUrl` of backend/src/security/ssrfValidator.ts: which URLs pass.
use event_relay.Base.{◌≡◌, ◌⊎◌, true, false, Option, some, [], ◌∷◌, Text, codes, All, text_eq}
use event_relay.Ssrf.{
  Net, ParsedUrl, Lookup, resolved, lookup_failed, to_lower, is_private_or_reserved_ip, is_ip,
  allow_http,
}

module _ (net : Net) where
  abbrev pub IsPublic : Text → Type 0
  IsPublic ip = is_private_or_reserved_ip net ip ≡ false

  -- Every address that the resolver gives is public, and it gives one.
  abbrev pub AllPublic : Lookup → Type 0
  AllPublic (resolved []) = ⊥
  AllPublic (resolved (a ∷ as')) = All IsPublic (a ∷ as')
  AllPublic (lookup_failed message) = ⊥

  -- A host name other than localhost that is a public address, or whose addresses all are.
  abbrev pub SafeHost : Text → Type 0
  SafeHost hostname =
      (text_eq (to_lower hostname) (codes "localhost") ≡ false)
      × (((is_ip net hostname ≡ true) × IsPublic hostname)
          ⊎ ((is_ip net hostname ≡ false) × AllPublic (net.lookup hostname)))

  -- A scheme that may be used.
  abbrev pub Allowed : Text → Type 0
  Allowed protocol =
      (text_eq protocol (codes "https:") ≡ true)
      ⊎ ((text_eq protocol (codes "http:") ≡ true) × (allow_http net ≡ true))

  abbrev Accepted : Option ParsedUrl → Type 0
  Accepted url =
      (parsed : ParsedUrl) × (url ≡ some parsed)
      × Allowed parsed.protocol
      × SafeHost parsed.hostname
