-- ===== src/Ssrf.antt =====
-- backend/src/security/ssrfValidator.ts: which addresses a webhook may be sent to.
pub mod Cidr
pub mod Agents
pub mod Safety
mod Tests
use event_relay.Base.{
  ℕ, zero, suc, ◌+◌, ◌-◌, Bool, true, false, not, ◌&&◌, ◌||◌, leb, ◌==◌, if◌then◌else◌, Option,
  none, some, List, [], ◌∷◌, ◌++◌, map, length, drop, all, find, Text, codes, text_eq, starts_with,
}
use event_relay.Base.Decimal.{is_digit, digits_value}

pub record ParsedUrl : Type 0 where
  pub protocol : Text
  pub hostname : Text

-- What `dns.lookup(hostname, { all: true })` comes to.
pub data Lookup : Type 0 where
  resolved : List Text → Lookup
  lookup_failed : Text → Lookup

-- What the code takes from Node and from the process's environment variables: `net.isIPv4`,
-- `net.isIPv6`, `new URL`, the resolver, and the flags that the variables spell.
pub record Net : Type 0 where
  pub is_ipv4 : Text → Bool
  pub is_ipv6 : Text → Bool
  pub parse_url : Text → Option ParsedUrl
  pub lookup : Text → Lookup
  pub allow_http_endpoints : Bool
  pub allow_private_endpoints : Bool
  pub production : Bool

-- One more unit at the head of the first part.
abbrev pub onto_first : ℕ → List Text → List Text
onto_first c [] = (c ∷ []) ∷ []
onto_first c (part ∷ parts) = (c ∷ part) ∷ parts

-- `text.split('.')`.
unfoldable pub split_dots : Text → List Text
split_dots [] = [] ∷ []
split_dots (c ∷ s) =
    let parts = split_dots s in if c == b'.' then [] ∷ parts else onto_first c parts

-- `Number(part)` for the decimal parts of an IPv4 address; `none` is NaN.
unfoldable pub to_number : Text → Option ℕ
to_number s = if all is_digit s then some (digits_value 0 s) else none

-- The ranges that the code tests, on the first two octets.
unfoldable pub blocked_octets : ℕ → ℕ → Text → Bool
blocked_octets a b ip =
    (a == 0)
    || ((a == 127)
        || ((a == 10)
            || ((a == 172 && (leb 16 b && leb b 31))
                || ((a == 192 && b == 168)
                    || ((a == 169 && b == 254)
                        || ((leb 224 a && leb a 239)
                            || (leb 240 a || text_eq ip (codes "255.255.255.255"))))))))

unfoldable pub blocked_ipv4 : List (Option ℕ) → Text → Bool
blocked_ipv4 (some a ∷ some b ∷ some c ∷ some d ∷ []) ip = blocked_octets a b ip
blocked_ipv4 _ ip = true

-- `toLowerCase` on ASCII.
abbrev pub to_lower : Text → Text
to_lower = map λ c. if leb b'A' c && leb c b'Z' then b'a' - b'A' + c else c

-- The tests on an IPv6 address that maps no IPv4 address.
unfoldable pub blocked_ipv6 : Text → Bool
blocked_ipv6 s =
    (text_eq s (codes "::1") || text_eq s (codes "0:0:0:0:0:0:0:1"))
    || ((text_eq s (codes "::") || text_eq s (codes "0:0:0:0:0:0:0:0"))
        || ((starts_with (codes "fc") s || starts_with (codes "fd") s)
            || (starts_with (codes "fe80") s
                || (starts_with (codes "fe9") s
                    || (starts_with (codes "fea") s || starts_with (codes "feb") s)))))

module _ (net : Net) where
  -- Each call of itself drops the seven units of `::ffff:`, so the text's length is fuel enough.
  unfoldable pub is_private_fuel : ℕ → Text → Bool
  is_private_fuel zero ip = true
  is_private_fuel (suc fuel) ip =
      let mapped = is_private_fuel fuel (drop 7 (to_lower ip)) in
      if net.is_ipv4 ip
      then blocked_ipv4 (map to_number (split_dots ip)) ip
      else (if net.is_ipv6 ip
          then (if starts_with (codes "::ffff:") (to_lower ip)
              then mapped
              else blocked_ipv6 (to_lower ip))
          else true)

  unfoldable pub is_private_or_reserved_ip : Text → Bool
  is_private_or_reserved_ip ip = is_private_fuel (suc (length ip)) ip

  -- `net.isIP(text)` is not 0.
  abbrev pub is_ip : Text → Bool
  is_ip s = net.is_ipv4 s || net.is_ipv6 s

-- `{ valid: true }` or `{ valid: false, error }`.
pub data Verdict : Type 0 where
  valid : Verdict
  refused : Text → Verdict

module _ (net : Net) where
  -- The loop over the records: the first private one decides.
  unfoldable pub check_records : List Text → Verdict
  check_records [] = valid
  check_records (a ∷ as') =
      if is_private_or_reserved_ip net a
      then refused (
          codes "SSRF Protection: Destination resolved to private/reserved IP address ("
          ++ (a ++ codes "). Access blocked."))
      else check_records as'

  unfoldable pub check_lookup : Text → Lookup → Verdict
  unfolding check_records
  check_lookup hostname (resolved []) =
      refused
        (codes "DNS resolution returned no addresses for hostname '" ++ (hostname ++ codes "'"))
  check_lookup hostname (resolved (a ∷ as')) = check_records (a ∷ as')
  check_lookup hostname (lookup_failed message) =
      refused
        (codes "DNS resolution failed for hostname '" ++ (hostname ++ (codes "': " ++ message)))

  unfoldable pub check_host : Text → Verdict
  unfolding check_lookup
  check_host hostname =
      if text_eq (to_lower hostname) (codes "localhost")
      then refused (codes "SSRF Protection: Access to localhost is blocked.")
      else (if is_ip net hostname
          then (if is_private_or_reserved_ip net hostname
              then refused (
                  codes "SSRF Protection: Target IP ("
                  ++ (hostname ++ codes ") is in private/reserved address space. Access blocked."))
              else valid)
          else check_lookup hostname (net.lookup hostname))

  abbrev pub allow_http : Bool
  allow_http = net.allow_http_endpoints || (net.allow_private_endpoints || not net.production)

  unfoldable pub check_parsed : Option ParsedUrl → Verdict
  unfolding check_host
  check_parsed none = refused (codes "Invalid URL format")
  check_parsed (some url) =
      if not (text_eq url.protocol (codes "https:")) && not (text_eq url.protocol (codes "http:"))
      then refused (codes "Unsupported protocol. Only HTTP and HTTPS are permitted.")
      else (if text_eq url.protocol (codes "http:") && not allow_http
          then refused (
              codes
                "Insecure HTTP protocol is disabled in production. Webhook URLs must use HTTPS.")
          else (if not net.allow_private_endpoints then check_host url.hostname else valid))

  unfoldable pub validate_endpoint_url : Text → Verdict
  unfolding check_parsed
  validate_endpoint_url url = check_parsed (net.parse_url url)
