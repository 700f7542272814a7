-- ===== src/Ssrf/Agents.antt =====
-- backend/src/security/ssrfValidator.ts: `secureLookup` of `createSecureAgents`, the resolver of the
-- sockets that the worker's requests use. A resolved record is given by its address, and the family
-- by whether Node calls the address an IPv4 one.
use event_relay.Base.{
  ℕ, ◌<◌, ◌≡◌, ◌≢◌, inl, inr, Bool, true, false, not, ◌&&◌, List, [], ◌∷◌, ◌++◌, Text, codes, All,
  All-imp, Any, if◌then◌else◌, Bool-cases,
}
use event_relay.Ssrf.{Net, Lookup, resolved, lookup_failed, is_private_or_reserved_ip, is_ip}
use event_relay.Ssrf.Safety.{IsPublic}
use event_relay.Ssrf.Cidr.{dotted, address_of, InBlock, reserved_blocks, is_private_dotted}

-- What the callback is given: an error, one address, or all of them.
pub data Pinned : Type 0 where
  blocked : Text → Pinned
  one_address : Text → Pinned
  all_addresses : List Text → Pinned

abbrev pub pin_first : Bool → List Text → Text → Pinned
pin_first true addresses first = all_addresses addresses
pin_first false addresses first = one_address first

module _ (net : Net) where
  -- The loop over the records, and what follows it.
  unfoldable pub pin_records : Bool → Text → List Text → Pinned → Pinned
  pin_records allow_private hostname [] pinned = pinned
  pin_records allow_private hostname (a ∷ as') pinned =
      let rest = pin_records allow_private hostname as' pinned in
      if not allow_private && is_private_or_reserved_ip net a
      then blocked (
          codes "SSRF Protection: Hostname '"
          ++ (hostname
              ++ (codes "' resolved to private/reserved IP address ("
                  ++ (a ++ codes "). Access blocked."))))
      else rest

  unfoldable pub pin_lookup : Bool → Text → Lookup → Pinned
  unfolding pin_records
  pin_lookup wants_all hostname (lookup_failed message) = blocked message
  pin_lookup wants_all hostname (resolved []) =
      blocked
        (codes "DNS resolution returned no addresses for hostname '" ++ (hostname ++ codes "'"))
  pin_lookup wants_all hostname (resolved (a ∷ as')) =
      pin_records net.allow_private_endpoints hostname (a ∷ as') (pin_first wants_all (a ∷ as') a)

  -- `secureLookup(hostname, { all: wants_all }, callback)`.
  unfoldable pub secure_lookup : Bool → Text → Pinned
  unfolding pin_lookup
  secure_lookup wants_all hostname =
      if is_ip net hostname
      then (if not net.allow_private_endpoints && is_private_or_reserved_ip net hostname
          then blocked (
              codes "SSRF Protection: Direct connection to private/reserved IP ("
              ++ (hostname ++ codes ") is blocked."))
          else one_address hostname)
      else pin_lookup wants_all hostname (net.lookup hostname)

  -- The addresses that the socket may connect to.
  abbrev pub given_addresses : Pinned → List Text
  given_addresses (blocked message) = []
  given_addresses (one_address a) = a ∷ []
  given_addresses (all_addresses as') = as'

  pin_records-IsPublic :
      (allow_private : Bool) (hostname : Text) (as' : List Text) (pinned : Pinned)
      → allow_private ≡ false
      → (All (IsPublic net) as' → All (IsPublic net) (given_addresses pinned))
      → All (IsPublic net) (given_addresses (pin_records allow_private hostname as' pinned))
  unfolding pin_records
  pin_records-IsPublic allow_private hostname [] pinned e h = h tt
  pin_records-IsPublic allow_private hostname (a ∷ as') pinned e h =
      elim (Bool-cases (is_private_or_reserved_ip net a)) [
        | inl private ↦ rw (e, private) tt
        | inr public ↦
            rw (e, public)
              (pin_records-IsPublic allow_private hostname as' pinned e (λ k. h (public, k)))
      ]

  pin_lookup-IsPublic :
      (wants_all : Bool) (hostname : Text) (l : Lookup)
      → net.allow_private_endpoints ≡ false
      → All (IsPublic net) (given_addresses (pin_lookup wants_all hostname l))
  unfolding pin_lookup
  pin_lookup-IsPublic wants_all hostname (lookup_failed message) e = tt
  pin_lookup-IsPublic wants_all hostname (resolved []) e = tt
  pin_lookup-IsPublic true hostname (resolved (a ∷ as')) e =
      pin_records-IsPublic net.allow_private_endpoints hostname (a ∷ as') _ e (λ h. h)
  pin_lookup-IsPublic false hostname (resolved (a ∷ as')) e =
      pin_records-IsPublic net.allow_private_endpoints hostname (a ∷ as') _ e (λ h. (h.0, tt))

  literal-IsPublic :
      (allow_private : Bool) (hostname message : Text)
      → allow_private ≡ false
      → All (IsPublic net) (
          given_addresses (
            if not allow_private && is_private_or_reserved_ip net hostname
            then blocked message
            else one_address hostname))
  literal-IsPublic allow_private hostname message e =
      elim (Bool-cases (is_private_or_reserved_ip net hostname)) [
        | inl private ↦ rw (e, private) tt
        | inr public ↦ rw (e, public) (public, tt)
      ]

  passes_test :
      (wants_all : Bool) (hostname : Text)
      → net.allow_private_endpoints ≡ false
      → All (IsPublic net) (given_addresses (secure_lookup wants_all hostname))
  unfolding secure_lookup
  passes_test wants_all hostname e = elim (Bool-cases (is_ip net hostname)) [
    | inl literal ↦ rw literal (literal-IsPublic net.allow_private_endpoints hostname _ e)
    | inr name ↦ rw name (pin_lookup-IsPublic wants_all hostname (net.lookup hostname) e)
  ]

  -- With private endpoints not allowed, whatever the resolver answers at the moment of the connection,
  -- the socket is given only addresses that pass `isPrivateOrReservedIp`, and never the dotted form of an
  -- IPv4 address in one of the reserved blocks, if Node takes that for an IPv4 address.
  pub secure_lookup_avoids :
      (wants_all : Bool) (hostname : Text) (a b c d : ℕ)
      → net.allow_private_endpoints ≡ false
      → a < 256
      → b < 256
      → c < 256
      → d < 256
      → net.is_ipv4 (dotted a b c d) ≡ true
      → Any (InBlock (address_of a b c d)) reserved_blocks
      → All
          (λ x. (is_private_or_reserved_ip net x ≡ false) × (x ≢ dotted a b c d))
          (given_addresses (secure_lookup wants_all hostname))
  secure_lookup_avoids wants_all hostname a b c d e ha hb hc hd four reserved =
      All-imp (IsPublic net) (λ x. (is_private_or_reserved_ip net x ≡ false) × (x ≢ dotted a b c d))
        (given_addresses (secure_lookup wants_all hostname))
        (λ x h. (
          h,
          λ same.
              let private = (is_private_dotted net a b c d ha hb hc hd four).1 reserved in
              let public : is_private_or_reserved_ip net (dotted a b c d) ≡ false = rw (← same) h in
              cc,
        ))
        (passes_test wants_all hostname e)
