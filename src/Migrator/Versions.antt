-- ===== src/Migrator/Versions.antt =====
-- backend/src/db/migrator.ts: which migrations of a list the loop skips, by their versions.
use event_relay.Base.{
  ◌≡◌, refl, true, false, List, [], ◌∷◌, ◌++◌, map, All, All-imp, All-both, All-right, Text,
  text_eq, text_eq_self, arith,
}
use event_relay.Store.{has_text}
use event_relay.Migrator.Migrations.{Migration, migrations}

abbrev pub row_of : Migration → Text × Text
row_of m = (m.version, m.name)

abbrev pub version_of_row : Text × Text → Text
version_of_row r = r.0

-- What the SELECT of the versions returns after these migrations.
abbrev pub versions : List Migration → List Text
versions ms = map version_of_row (map row_of ms)

abbrev pub Skipped : List Text → Migration → Type 0
Skipped applied m = has_text m.version applied ≡ true

abbrev pub Pending : List Text → Migration → Type 0
Pending applied m = has_text m.version applied ≡ false

-- No two have the same version.
abbrev Distinct : List Migration → Type 0
Distinct [] = Unit {0}
Distinct (m ∷ ms) = All (λ (x : Migration). text_eq m.version x.version ≡ false) ms × Distinct ms

migrations-Distinct : Distinct migrations
migrations-Distinct = ((refl, (refl, (refl, tt))), ((refl, (refl, tt)), ((refl, tt), (tt, tt))))

pub done_Skipped : (ms : List Migration) → All (Skipped (versions ms)) ms
done_Skipped [] = tt
done_Skipped (m ∷ ms) = (
  rw (text_eq_self m.version) refl,
  All-imp (Skipped (versions ms)) (Skipped (versions (m ∷ ms))) ms (λ x h. ground (arith, h))
      (done_Skipped ms),
)

todo_Pending :
    (done todo : List Migration) → Distinct (done ++ todo) → All (Pending (versions done)) todo
todo_Pending [] todo d = All_trivial todo
  where
    All_trivial : (xs : List Migration) → All (Pending []) xs
    All_trivial [] = tt
    All_trivial (x ∷ xs) = (refl, All_trivial xs)
todo_Pending (m ∷ ms) todo d =
    All-imp (λ x. (text_eq m.version x.version ≡ false) × Pending (versions ms) x)
      (Pending (versions (m ∷ ms))) todo (λ x h. rw (h.0, h.1) refl)
      (All-both (λ (x : Migration). text_eq m.version x.version ≡ false) (Pending (versions ms))
        todo (All-right (λ (x : Migration). text_eq m.version x.version ≡ false) ms todo d.0)
        (todo_Pending ms todo d.1))

pub rest_Pending :
    (done todo : List Migration) → done ++ todo ≡ migrations → All (Pending (versions done)) todo
rest_Pending done todo e = todo_Pending done todo (rw e migrations-Distinct)
