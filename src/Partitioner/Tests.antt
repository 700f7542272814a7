-- ===== src/Partitioner/Tests.antt =====
-- Hashes and streams of concrete keys.
use event_relay.Base.{◌≡◌, codes}
use event_relay.Partitioner.{hash_key}
use event_relay.Partitioner.Fnv.{fnv1a, hash_key-fnv1a}

hash_key-fnv1a_example : hash_key (codes "customer-9") ≡ fnv1a 2166136261 (codes "customer-9")
hash_key-fnv1a_example = hash_key-fnv1a (codes "customer-9")
