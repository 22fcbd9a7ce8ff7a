-- ===== src/Web.antt =====
-- The way a handler runs (error.ts, and the exceptions of an async function): it reads and writes the
-- state and ends with a value or with an `ApiError`. A write made before an error stays made, since
-- the database calls of a handler are separate statements and no transaction.
pub mod Defs
pub mod Laws
pub mod Steps
pub use Defs.{Result, ok, err}
unfoldable pub use Defs.{
  M, pure, continue, ◌>>=◌, ◌>>◌, modify, get, err_code, bad_request, not_found, unauthorized, when,
  err_if, from_result, for_each, attempt, caught,
}
pub use Laws.{>>=-eq-ok, Result-cases}
