-- ===== src/Migrator/Migrations.antt =====
-- The migrations of backend/src/db/migrator.ts: the statements of each, in order.
use event_relay.Base.{List, [], ◌∷◌, Text, codes}
use event_relay.Store.Tables.{
  Column, Table, Index, Statement, create_extension, create_table, create_index, add_columns,
  comment_on,
}

pub record Migration : Type 0 where
  pub version : Text
  pub name : Text
  pub sql : List Statement

abbrev column : Text → Text → Column
column name definition = record { name = name; definition = definition }

abbrev index : Text → Text → List Text → Index
index name table columns = record { name = name; table = table; columns = columns }

abbrev pub endpoints_table : Table
endpoints_table = record {
  name = codes "endpoints";
  columns =
      column (codes "id") (codes "UUID PRIMARY KEY DEFAULT uuid_generate_v4()")
      ∷ column (codes "name") (codes "VARCHAR(255) NOT NULL")
      ∷ column (codes "url") (codes "VARCHAR(2048) NOT NULL")
      ∷ column (codes "secret_key") (codes "VARCHAR(255) NOT NULL")
      ∷ column (codes "rate_limit_rps") (codes "INTEGER NOT NULL DEFAULT 50")
      ∷ column (codes "max_retries") (codes "INTEGER NOT NULL DEFAULT 5")
      ∷ column (codes "timeout_ms") (codes "INTEGER NOT NULL DEFAULT 5000")
      ∷ column (codes "is_active") (codes "BOOLEAN NOT NULL DEFAULT TRUE")
      ∷ column (codes "created_at") (codes "TIMESTAMP WITH TIME ZONE DEFAULT CURRENT_TIMESTAMP")
      ∷ column (codes "updated_at") (codes "TIMESTAMP WITH TIME ZONE DEFAULT CURRENT_TIMESTAMP")
      ∷ [];
}

abbrev pub events_table : Table
events_table = record {
  name = codes "events";
  columns =
      column (codes "id") (codes "UUID PRIMARY KEY DEFAULT uuid_generate_v4()")
      ∷ column (codes "idempotency_key") (codes "VARCHAR(128) UNIQUE NOT NULL")
      ∷ column (codes "event_type") (codes "VARCHAR(128) NOT NULL")
      ∷ column (codes "payload") (codes "JSONB NOT NULL")
      ∷ column (codes "ordering_key") (codes "VARCHAR(255)")
      ∷ column (codes "status") (codes "VARCHAR(32) NOT NULL DEFAULT 'PENDING'")
      ∷ column (codes "created_at") (codes "TIMESTAMP WITH TIME ZONE DEFAULT CURRENT_TIMESTAMP")
      ∷ [];
}

abbrev pub deliveries_table : Table
deliveries_table = record {
  name = codes "deliveries";
  columns =
      column (codes "id") (codes "UUID PRIMARY KEY DEFAULT uuid_generate_v4()")
      ∷ column (codes "event_id") (codes "UUID NOT NULL REFERENCES events(id) ON DELETE CASCADE")
      ∷ column (codes "endpoint_id")
          (codes "UUID NOT NULL REFERENCES endpoints(id) ON DELETE CASCADE")
      ∷ column (codes "attempt_number") (codes "INTEGER NOT NULL DEFAULT 1")
      ∷ column (codes "http_status") (codes "INTEGER")
      ∷ column (codes "response_body") (codes "TEXT")
      ∷ column (codes "duration_ms") (codes "INTEGER")
      ∷ column (codes "error_message") (codes "TEXT")
      ∷ column (codes "status") (codes "VARCHAR(32) NOT NULL DEFAULT 'RETRYING'")
      ∷ column (codes "next_retry_at") (codes "TIMESTAMP WITH TIME ZONE")
      ∷ column (codes "created_at") (codes "TIMESTAMP WITH TIME ZONE DEFAULT CURRENT_TIMESTAMP")
      ∷ [];
}

abbrev pub circuit_breakers_table : Table
circuit_breakers_table = record {
  name = codes "circuit_breakers";
  columns =
      column (codes "endpoint_id")
        (codes "UUID PRIMARY KEY REFERENCES endpoints(id) ON DELETE CASCADE")
      ∷ column (codes "state") (codes "VARCHAR(32) NOT NULL DEFAULT 'CLOSED'")
      ∷ column (codes "failure_count") (codes "INTEGER NOT NULL DEFAULT 0")
      ∷ column (codes "success_count") (codes "INTEGER NOT NULL DEFAULT 0")
      ∷ column (codes "threshold_failures") (codes "INTEGER NOT NULL DEFAULT 5")
      ∷ column (codes "cool_down_seconds") (codes "INTEGER NOT NULL DEFAULT 30")
      ∷ column (codes "opened_at") (codes "TIMESTAMP WITH TIME ZONE")
      ∷ column (codes "last_failure_at") (codes "TIMESTAMP WITH TIME ZONE")
      ∷ column (codes "updated_at") (codes "TIMESTAMP WITH TIME ZONE DEFAULT CURRENT_TIMESTAMP")
      ∷ [];
}

abbrev pub outbox_table : Table
outbox_table = record {
  name = codes "outbox";
  columns =
      column (codes "id") (codes "UUID PRIMARY KEY DEFAULT uuid_generate_v4()")
      ∷ column (codes "delivery_id")
          (codes "UUID NOT NULL REFERENCES deliveries(id) ON DELETE CASCADE")
      ∷ column (codes "event_id") (codes "UUID NOT NULL REFERENCES events(id) ON DELETE CASCADE")
      ∷ column (codes "endpoint_id")
          (codes "UUID NOT NULL REFERENCES endpoints(id) ON DELETE CASCADE")
      ∷ column (codes "attempt_number") (codes "INTEGER NOT NULL DEFAULT 1")
      ∷ column (codes "ordering_key") (codes "VARCHAR(255)")
      ∷ column (codes "created_at") (codes "TIMESTAMP WITH TIME ZONE DEFAULT CURRENT_TIMESTAMP")
      ∷ [];
}

abbrev pub initial_schema : Migration
initial_schema = record {
  version = codes "001";
  name = codes "initial_schema";
  sql =
      create_extension (codes "uuid-ossp")
      ∷ create_table endpoints_table ([])
      ∷ create_table events_table ([])
      ∷ create_index
          (index (codes "idx_events_idempotency") (codes "events") (codes "idempotency_key" ∷ []))
      ∷ create_index
          (index (codes "idx_events_ordering_key") (codes "events") (codes "ordering_key" ∷ []))
      ∷ create_index (index (codes "idx_events_status") (codes "events") (codes "status" ∷ []))
      ∷ create_table deliveries_table (codes "events" ∷ codes "endpoints" ∷ [])
      ∷ create_index
          (index (codes "idx_deliveries_event_id") (codes "deliveries") (codes "event_id" ∷ []))
      ∷ create_index (
          index (codes "idx_deliveries_endpoint_status") (codes "deliveries")
            (codes "endpoint_id" ∷ codes "status" ∷ []))
      ∷ create_index (
          index (codes "idx_deliveries_retry") (codes "deliveries")
            (codes "status" ∷ codes "next_retry_at" ∷ []))
      ∷ create_table circuit_breakers_table (codes "endpoints" ∷ [])
      ∷ [];
}

abbrev pub add_outbox_and_subscriptions : Migration
add_outbox_and_subscriptions = record {
  version = codes "002";
  name = codes "add_outbox_and_subscriptions";
  sql =
      add_columns (codes "endpoints")
        (column (codes "subscribed_events") (codes "TEXT[] NOT NULL DEFAULT '{}'") ∷ [])
      ∷ create_table outbox_table (codes "deliveries" ∷ codes "events" ∷ codes "endpoints" ∷ [])
      ∷ create_index
          (index (codes "idx_outbox_created_at") (codes "outbox") (codes "created_at" ∷ []))
      ∷ [];
}

abbrev pub add_no_targets_status : Migration
add_no_targets_status = record {
  version = codes "003";
  name = codes "add_no_targets_status";
  sql =
      comment_on (record {
        table = codes "events";
        column = codes "status";
        text = codes "PENDING, PROCESSING, COMPLETED, FAILED, PARTIAL_SUCCESS, NO_TARGETS";
      })
      ∷ [];
}

abbrev pub align_circuit_breakers : Migration
align_circuit_breakers = record {
  version = codes "004";
  name = codes "align_circuit_breakers";
  sql =
      add_columns (codes "circuit_breakers") (
        column (codes "success_count") (codes "INTEGER NOT NULL DEFAULT 0")
        ∷ column (codes "threshold_failures") (codes "INTEGER NOT NULL DEFAULT 5")
        ∷ column (codes "cool_down_seconds") (codes "INTEGER NOT NULL DEFAULT 30")
        ∷ column (codes "opened_at") (codes "TIMESTAMP WITH TIME ZONE")
        ∷ column (codes "updated_at") (codes "TIMESTAMP WITH TIME ZONE DEFAULT CURRENT_TIMESTAMP")
        ∷ [])
      ∷ [];
}

-- `MIGRATIONS`.
abbrev pub migrations : List Migration
migrations =
    initial_schema ∷ add_outbox_and_subscriptions ∷ add_no_targets_status ∷ align_circuit_breakers
    ∷ []
