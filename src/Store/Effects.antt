-- ===== src/Store/Effects.antt =====
-- Handlers as functions from a world to an outcome and the next world: `await` on a call that may
-- throw, `try`/`catch`/`finally`, and `withTransaction` of backend/src/db/client.ts.
use event_relay.Base.{ℕ, Bool, true, false, List, [], ◌∷◌}
use event_relay.Store.Schema.{Database}
use event_relay.Store.State.{World, Redis}

-- What a promise comes to.
pub data Result {ℓ} (A : Type ℓ) : Type ℓ where
  ok : A → Result A
  thrown : Result A

abbrev pub M : Type 0 → Type 0
M A = World → Result A × World

-- What follows an `await`: nothing, if it threw.
abbrev pub continue : {A B : Type 0} → Result A × World → (A → M B) → Result B × World
continue (ok a, w) f = f a w
continue (thrown, w) f = (thrown, w)

infixl 5 ◌>>=◌ ◌>>◌
abbrev pub ◌>>=◌ : {A B : Type 0} → M A → (A → M B) → M B
◌>>=◌ m f w = continue (m w) f

abbrev pub ◌>>◌ : {A B : Type 0} → M A → M B → M B
◌>>◌ m k w = continue (m w) (λ _. k)

abbrev pub pure : {A : Type 0} → A → M A
pure a w = (ok a, w)

-- A change of the process's own state: it cannot fail.
abbrev pub modify : (World → World) → M (Unit {0})
modify f w = (ok tt, f w)

-- `Date.now()`.
abbrev pub clock : M ℕ
clock w = (ok w.now, w)

-- An outside call: it throws when the environment says so, and then has done nothing.
abbrev pub attempt : {A : Type 0} → List Bool → M A → M A
attempt [] m w = m w
attempt (true ∷ rest) m w = (thrown, record w { faults = rest })
attempt (false ∷ rest) m w = m (record w { faults = rest })

abbrev pub call : {A : Type 0} → M A → M A
call m w = attempt w.faults m w

-- `query(…)` of db/client.ts, or `client.query(…)`: one SQL statement on the tables.
abbrev pub query : {A : Type 0} → (Database → A) → M A
query f = call (λ w. (ok (f w.db), w))

abbrev pub execute : (Database → Database) → M (Unit {0})
execute f = call (modify (λ w. record w { db = f w.db }))

-- One statement that changes the tables and returns rows.
abbrev pub execute_returning : {A : Type 0} → (Database → A × Database) → M A
execute_returning f = call (λ w. let (a, db) = f w.db in (ok a, record w { db = db }))

-- One command to Redis.
abbrev pub command : {A : Type 0} → (World → A × Redis) → M A
command f = call (λ w. let (a, redis) = f w in (ok a, record w { redis = redis }))

-- `try { m } catch { h }`.
abbrev pub recover : {A : Type 0} → Result A × World → M A → Result A × World
recover (ok a, w) h = (ok a, w)
recover (thrown, w) h = h w

abbrev pub try_catch : {A : Type 0} → M A → M A → M A
try_catch m h w = recover (m w) h

-- `try { m } finally { f }`: a throw of `f` replaces the outcome of `m`.
abbrev pub outcome_of : {A : Type 0} → Result A → Unit {0} → M A
outcome_of r _ w = (r, w)

abbrev pub then_finally : {A : Type 0} → Result A × World → M (Unit {0}) → Result A × World
then_finally (r, w) f = continue (f w) (outcome_of r)

abbrev pub try_finally : {A : Type 0} → M A → M (Unit {0}) → M A
try_finally m f w = then_finally (m w) f

abbrev pub no_op : M (Unit {0})
no_op w = (ok tt, w)

-- What a ROLLBACK comes to, the error is thrown again.
abbrev pub rethrow : {A : Type 0} → Result (Unit {0}) × World → Result A × World
rethrow (_, w) = (thrown, w)

-- The statements of a transaction that throws are undone; what it did elsewhere stays.
abbrev pub settle_transaction : {A : Type 0} → Database → Result A × World → Result A × World
settle_transaction before (ok a, w) = (ok a, w)
settle_transaction before (thrown, w) = rethrow (call no_op (record w { db = before }))

-- BEGIN, the callback, COMMIT; on a throw, ROLLBACK.
unfoldable pub begin_commit : {A : Type 0} → M A → M A
begin_commit callback w =
    settle_transaction w.db ((do call no_op; a ← callback; call no_op; pure a) w)

-- `withTransaction(callback)`: it takes a connection first.
unfoldable pub with_transaction : {A : Type 0} → M A → M A
unfolding begin_commit
with_transaction callback = do call no_op; begin_commit callback
