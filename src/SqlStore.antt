-- ===== src/SqlStore.antt =====
-- sqlite/sqlite.go and postgres/postgres.go. The two packages have the same life of a store, which
-- Lifecycle models under any interleaving, the same migrations, in Migrations, and the same way to
-- open a database, in Connect; Sqlite and Postgres have what each of them does by itself.
pub mod Migrations
pub mod Connect
pub mod Lifecycle
pub mod Sqlite
pub mod Postgres
