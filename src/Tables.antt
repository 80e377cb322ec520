-- ===== src/Tables.antt =====
-- The tables of the interface: what they ask the service for, the rows that they make of its
-- answers, and the log of an operation that is polled. The code is in
-- console/ui/src/widgets/*-table/ui/index.tsx and */lib/hooks.tsx, in
-- features/operations-table-buttons/lib/functions.ts, shared/lib/functions.ts,
-- shared/lib/hooks.tsx and pages/operation-log/ui/index.tsx.
mod Rows
mod Queries
mod Polling
mod SecretLaws
mod PageLaws
mod PollingLaws
mod Tests
unfoldable pub use Rows.*
unfoldable pub use Queries.*
unfoldable pub use Polling.*
