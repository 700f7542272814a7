-- ===== src/Circuit/Registry.antt =====
-- `getCircuit` reads the row of the endpoint, and makes it where there is none.
use event_relay.Base.{
  ℕ, suc, ◌≡◌, refl, ◌∙◌, inl, inr, false, none, some, Option, List, [], ◌∷◌, ◌++◌, find, any,
  find-append_none, Option-cases, ==_self, arith,
}
use event_relay.Store.{World, CircuitRecord, ok}
use event_relay.Circuit.{is_of, default_circuit, insert_circuit, get_circuit}
use event_relay.Circuit.Refinement.{get_circuit_found}

any-none :
    (endpoint_id : ℕ) (rows : List CircuitRecord)
    → find (is_of endpoint_id) rows ≡ none
    → any (is_of endpoint_id) rows ≡ false
any-none endpoint_id [] e = refl
any-none endpoint_id (r ∷ rows) e = ground (arith, any-none endpoint_id rows)

-- The table, with the new row where the endpoint had none.
abbrev pub with_default : ℕ → Option CircuitRecord → List CircuitRecord → List CircuitRecord
with_default endpoint_id (some r) rows = rows
with_default endpoint_id none rows = rows ++ default_circuit endpoint_id ∷ []

-- Where no call fails, one read is enough: the row that is there is returned and the table left, or a
-- closed one with no failures is added at the end, and returned. Afterwards the row is the
-- endpoint's in the table.
pub get_circuit_lem :
    (endpoint_id fuel : ℕ) (w : World)
    → w.faults ≡ []
    → (r : CircuitRecord) × ((get_circuit (suc fuel) endpoint_id w).0 ≡ ok r)
      × ((get_circuit (suc fuel) endpoint_id w).1.db.circuit_breakers
          ≡ with_default endpoint_id
              (find (is_of endpoint_id) w.db.circuit_breakers)
              w.db.circuit_breakers)
      × (find (is_of endpoint_id) (get_circuit (suc fuel) endpoint_id w).1.db.circuit_breakers
          ≡ some r)
get_circuit_lem endpoint_id fuel w e =
    elim (Option-cases (find (is_of endpoint_id) w.db.circuit_breakers)) [
      | inr (r, there) ↦
          rw (get_circuit_found endpoint_id w r fuel e there, there) (r, refl, refl, refl)
      | inl missing ↦ (
        default_circuit endpoint_id,
        unfold get_circuit in
            unfold insert_circuit in rw (e, missing, any-none endpoint_id _ missing) refl,
        unfold get_circuit in
            unfold insert_circuit in rw (e, missing, any-none endpoint_id _ missing) refl,
        unfold get_circuit in
            unfold insert_circuit in
            rw (e, missing, any-none endpoint_id _ missing)
              (find-append_none (is_of endpoint_id) w.db.circuit_breakers _ missing
                ∙ (rw (==_self endpoint_id) refl)),
      )
    ]
