-- ===== src/JobStore.antt =====
-- internal/jobstore: the job record, and the SQLite store as its table of rows. A statement runs
-- in a transaction, so an operation that fails changes nothing. `fault` says that the database
-- refuses the statement (locked, I/O error); times are the RFC 3339 texts that the table holds.
mod Rows
pub mod Swap
pub mod Listing
pub mod Orphans
pub mod Life
mod Query
mod Recovery
pub use Rows.{JobRecord, Fields, no_fields, queued, running, completed, failed, timeout}
pub use Rows.{
  Error, Result, ok, err, id_required, status_required, unavailable, already_exists, not_found,
  status_mismatch, has_id,
}
unfoldable pub use Rows.{find, apply_fields, set_columns, rewrite, create, get_by_id, update_status}
pub use Query.{text_lt, is_expired}
unfoldable pub use Query.{
  list_by_status, list_running_by_vm, conflicts, has_conflict, delete_older_than, sort_by_created,
}
unfoldable pub use Recovery.{mark_job_failed, recover_orphaned_jobs}
