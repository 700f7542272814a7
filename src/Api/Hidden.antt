-- ===== src/Api/Hidden.antt =====
-- What `listEndpoints` of backend/src/api/endpointsController.ts tells of the secrets.
use mathlib.Core.List.{reverse, reverse-cons, map-append}
use event_relay.Base.{ℕ, zero, suc, ◌≡◌, refl, List, [], ◌∷◌, Bool, true, false, map, take}
use event_relay.Store.{World, Database, Endpoint, Result, ok, recover, continue, attempt, pure}
use event_relay.Api.Listings.{rows, list_failed, EndpointRow, listed_endpoint, list_endpoints}

-- An endpoint with all but the first ten units of its secret cut off.
abbrev pub masked : Endpoint → Endpoint
masked ep = record ep { secret_key = take 10 ep.secret_key }

abbrev pub with_masked : World → World
with_masked w = record w { db = record (w.db) { endpoints = map masked w.db.endpoints } }

take-take : {A : Type 0} (n : ℕ) (xs : List A) → take n (take n xs) ≡ take n xs
take-take zero xs = refl
take-take (suc n) [] = refl
take-take (suc n) (x ∷ xs) = rw (take-take n xs) refl

masked_row :
    (db : Database) (ep : Endpoint) → listed_endpoint db (masked ep) ≡ listed_endpoint db ep
unfolding listed_endpoint
masked_row db ep = rw (take-take 10 ep.secret_key) refl

masked_rows :
    (db : Database) (eps : List Endpoint)
    → map (listed_endpoint db) (map masked eps) ≡ map (listed_endpoint db) eps
masked_rows db [] = refl
masked_rows db (ep ∷ eps) = rw (masked_row db ep, masked_rows db eps) refl

reverse-masked : (eps : List Endpoint) → reverse (map masked eps) ≡ map masked (reverse eps)
reverse-masked [] = refl
reverse-masked (ep ∷ eps) =
    rw
      (
        reverse-cons (masked ep) (map masked eps),
        reverse-cons ep eps,
        reverse-masked eps,
        map-append masked (reverse eps) (ep ∷ []),
      )
      refl

listing : World → Result (List EndpointRow) × World
listing v = (ok (map (listed_endpoint v.db) (reverse v.db.endpoints)), v)

same_listing :
    (v : World)
    → map (listed_endpoint (with_masked v).db) (reverse (with_masked v).db.endpoints)
      ≡ map (listed_endpoint v.db) (reverse v.db.endpoints)
unfolding listed_endpoint
same_listing v = rw (reverse-masked v.db.endpoints) (masked_rows v.db (reverse v.db.endpoints))

same_answer :
    (fs : List Bool) (v : World)
    → (recover
        (continue (attempt fs listing (with_masked v)) (λ rs. pure (rows rs)))
        (pure list_failed)).0
      ≡ (recover (continue (attempt fs listing v) (λ rs. pure (rows rs))) (pure list_failed)).0
unfolding listing
same_answer [] v = rw (same_listing v) refl
same_answer (true ∷ fs) v = refl
same_answer (false ∷ fs) v = rw (same_listing v) refl

-- The answer of `listEndpoints` is the same if all secrets are cut off after their first ten units.
pub list_endpoints-masked : (w : World) → (list_endpoints (with_masked w)).0 ≡ (list_endpoints w).0
unfolding list_endpoints listing
list_endpoints-masked w = same_answer w.faults w
