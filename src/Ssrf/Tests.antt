-- ===== src/Ssrf/Tests.antt =====
-- Addresses and URLs.
use event_relay.Base.{
  ◌≢◌, ◌≡◌, ◌<◌, ◌↔◌, refl, true, false, codes, arith, All, Any, inl, inr, [], ◌∷◌,
}
use event_relay.Sample.{net}
use event_relay.Ssrf.{is_private_or_reserved_ip}
use event_relay.Ssrf.Cidr.{dotted, address_of, InBlock, reserved_blocks, is_private_dotted}
use event_relay.Ssrf.Agents.{given_addresses, secure_lookup, secure_lookup_avoids}

is_ipv4_dotted : net.is_ipv4 (dotted 172 20 0 1) ≡ true
is_ipv4_dotted = unfold event_relay.Base.Decimal.decimal in refl

is_private_dotted_example :
    (is_private_or_reserved_ip net (dotted 172 20 0 1) ≡ true)
    ↔ Any (InBlock (address_of 172 20 0 1)) reserved_blocks
is_private_dotted_example =
    is_private_dotted net 172 20 0 1 (omega arith) (omega arith) (omega arith) (omega arith)
      is_ipv4_dotted

is_private_lan : net.is_ipv4 (dotted 10 0 0 1) ≡ true
is_private_lan = unfold event_relay.Base.Decimal.decimal in refl

secure_lookup_avoids_example :
    All
      (λ x. (is_private_or_reserved_ip net x ≡ false) × (x ≢ dotted 10 0 0 1))
      (given_addresses net (secure_lookup net false (codes "hooks.example")))
secure_lookup_avoids_example =
    secure_lookup_avoids net false (codes "hooks.example") 10 0 0 1 refl (omega arith) (omega arith)
      (omega arith) (omega arith) is_private_lan (inr (inl refl))
