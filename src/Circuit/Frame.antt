-- ===== src/Circuit/Frame.antt =====
-- What the breaker leaves alone: all but its table and its gauge.
use event_relay.Base.{
  ℕ, zero, suc, Bool, true, false, Option, none, some, ltb, any, Bool-cases, inl, inr,
}
use event_relay.Store.{
  World, CircuitRecord, CircuitState, closed, opened, half_open, half_open_probing, M,
}
use event_relay.Store.Frame.{
  Keeps, Blind, BlindToBreakers, call-Keeps, query-Keeps, continue-Keeps, if-Keeps,
}
use event_relay.Metrics.{set_circuit_state}
use event_relay.Circuit.{
  get_circuit, insert_circuit, claim_probe, admit, can_execute, after_success, record_success,
  after_failure, record_failure, is_of, reads, or_else, granted, trips, cooled_down, execute_on,
}

module _ {P : World → Type 0} (b : Blind P) (c : BlindToBreakers P) where
  set_gauge-Keeps :
      (endpoint_id : ℕ) (s : CircuitState) (v : World) → P v → P (set_circuit_state endpoint_id s v)
  unfolding set_circuit_state
  set_gauge-Keeps endpoint_id s v h = b.to_metrics v _ h

  insert_circuit-Keeps :
      (endpoint_id : ℕ) (v : World)
      → P v
      → P (record v { db = (insert_circuit endpoint_id v.db).1 })
  unfolding insert_circuit
  insert_circuit-Keeps endpoint_id v h =
      elim (Bool-cases (any (is_of endpoint_id) v.db.circuit_breakers)) [
        | inl there ↦ rw there h
        | inr missing ↦ rw missing (c.to_breakers v _ h)
      ]

  or_else-Keeps :
      (row : Option CircuitRecord) (next : M CircuitRecord)
      → Keeps P next
      → Keeps P (or_else row next)
  or_else-Keeps none next k = k
  or_else-Keeps (some r) next k = λ w h. h

  get_circuit-Keeps : (fuel endpoint_id : ℕ) → Keeps P (get_circuit fuel endpoint_id)
  unfolding get_circuit
  get_circuit-Keeps zero endpoint_id w h = h
  get_circuit-Keeps (suc fuel) endpoint_id w h = continue-Keeps P _ _ (query-Keeps b _ w h) λ row.
      or_else-Keeps row _ λ v g.
        continue-Keeps P _ _ (call-Keeps b _ (insert_circuit-Keeps endpoint_id) v g)
          λ inserted. or_else-Keeps inserted _ (get_circuit-Keeps fuel endpoint_id)

  granted-Keeps : (endpoint_id : ℕ) (claimed : Bool) → Keeps P (granted endpoint_id claimed)
  granted-Keeps endpoint_id true w h = set_gauge-Keeps endpoint_id half_open w h
  granted-Keeps endpoint_id false w h = h

  admit-Keeps :
      (endpoint_id : ℕ) (s : CircuitState) (r : CircuitRecord) → Keeps P (admit endpoint_id s r)
  unfolding admit claim_probe
  admit-Keeps endpoint_id closed r w h = h
  admit-Keeps endpoint_id opened r w h =
      if-Keeps P (cooled_down w.now r) _ _
        (λ v g.
          continue-Keeps P _ _ (call-Keeps b _ (λ u i. c.to_breakers u _ i) v g)
            (granted-Keeps endpoint_id))
        (λ v g. g) w h
  admit-Keeps endpoint_id half_open r w h = call-Keeps b _ (λ u i. c.to_breakers u _ i) w h
  admit-Keeps endpoint_id half_open_probing r w h = h

  pub can_execute-Keeps : (endpoint_id : ℕ) → Keeps P (can_execute endpoint_id)
  unfolding can_execute
  can_execute-Keeps endpoint_id w h =
      continue-Keeps P _ _ (get_circuit-Keeps reads endpoint_id w h)
        λ r. admit-Keeps endpoint_id r.state r

  execute_on-Keeps :
      (endpoint_id : ℕ) (f : CircuitRecord → CircuitRecord) → Keeps P (execute_on endpoint_id f)
  execute_on-Keeps endpoint_id f w h = call-Keeps b _ (λ u i. c.to_breakers u _ i) w h

  after_success-Keeps :
      (endpoint_id : ℕ) (s : CircuitState) (n : ℕ) → Keeps P (after_success endpoint_id s n)
  unfolding after_success
  after_success-Keeps endpoint_id half_open n w h =
      continue-Keeps P _ _ (execute_on-Keeps endpoint_id _ w h)
        λ _ v g. set_gauge-Keeps endpoint_id closed v g
  after_success-Keeps endpoint_id half_open_probing n w h =
      continue-Keeps P _ _ (execute_on-Keeps endpoint_id _ w h)
        λ _ v g. set_gauge-Keeps endpoint_id closed v g
  after_success-Keeps endpoint_id closed n w h =
      if-Keeps P (ltb 0 n) _ _ (execute_on-Keeps endpoint_id _) (λ v g. g) w h
  after_success-Keeps endpoint_id opened n w h = h

  pub record_success-Keeps : (endpoint_id : ℕ) → Keeps P (record_success endpoint_id)
  unfolding record_success
  record_success-Keeps endpoint_id w h =
      continue-Keeps P _ _ (get_circuit-Keeps reads endpoint_id w h)
        λ r. after_success-Keeps endpoint_id r.state r.failure_count

  after_failure-Keeps :
      (endpoint_id : ℕ) (row : Option CircuitRecord) → Keeps P (after_failure endpoint_id row)
  unfolding after_failure
  after_failure-Keeps endpoint_id none w h = h
  after_failure-Keeps endpoint_id (some r) w h =
      if-Keeps P (trips r) _ _
        (λ v g.
          continue-Keeps P _ _ (call-Keeps b _ (λ u i. c.to_breakers u _ i) v g)
            λ _ u i. set_gauge-Keeps endpoint_id opened u i)
        (λ v g. g) w h

  pub record_failure-Keeps : (endpoint_id : ℕ) → Keeps P (record_failure endpoint_id)
  unfolding record_failure
  record_failure-Keeps endpoint_id w h =
      continue-Keeps P _ _ (call-Keeps b _ (λ u i. c.to_breakers u _ i) w h)
        (after_failure-Keeps endpoint_id)
