-- ===== src/Shim/Extensions/Owned.antt =====
-- The calls of Extensions.antt keep who lists whom.

use sqlite_broker.Prelude.{Option-cases, inl, inr, ℕ, ◌≡◌, refl, arith, Bool, Option, none, some}
use sqlite_broker.Text.{Bytes}
use sqlite_broker.Shim.State.{Net, ProxyDb, Shim, as_db, as_stmt, put_db, sqlite_error}
use sqlite_broker.Shim.Proxy.{fail}
use sqlite_broker.Shim.Exec.{report, free}
use sqlite_broker.Shim.Settings.{expanded_sql}
use sqlite_broker.Shim.Extensions.{
  no_extensions, no_blobs, no_deserialize, no_backup, failed, load_extension, blob_open,
  backup_between, backup_init, deserialize, SideCall, loads, opens_blob, backs_up, deserializes,
  expands, frees, side_call,
}
use sqlite_broker.Shim.Handles.{Owned, as_db-get}
use sqlite_broker.Shim.Ownership.Links.{put_db-IsLinked, insert-AllClosing}
use sqlite_broker.Shim.Extensions.Refused.{SameHandles, malloc_cstr_keeps, report_keeps}

module _ {net : Net} where
  Owned-same : (s t : Shim net) → SameHandles s t → Owned s → Owned t
  Owned-same s t (dbs, stmts) v = rw (dbs, stmts) v

  failed-Owned :
      (db : ℕ) (message : Bytes) (p : ProxyDb net) (s : Shim net)
      → as_db db s ≡ some p
      → Owned s
      → Owned (failed db message p s)
  unfolding failed put_db fail
  failed-Owned db message p s h v =
      let at = as_db-get db p s h in
      record {
        linked = put_db-IsLinked db p (fail message p) at refl v.linked;
        closing = insert-AllClosing db (fail message p) s.dbs (v.closing db p at) v.closing;
      }

  report-Owned :
      (db : ℕ) (has_err : Bool) (o : Option (ProxyDb net)) (s : Shim net)
      → as_db db s ≡ o
      → Owned s
      → Owned (side_call (loads db has_err) s)
  unfolding side_call load_extension
  report-Owned db has_err none s e v = rw (e, side_call, load_extension) v
  report-Owned db has_err (some p) s e v =
      rw (e, side_call, load_extension)
        (Owned-same (failed db no_extensions p s)
          (report has_err no_extensions sqlite_error (failed db no_extensions p s)).2
          (report_keeps has_err no_extensions sqlite_error (failed db no_extensions p s))
          (failed-Owned db no_extensions p s e v))

  expanded_sql_keeps : (stmt : ℕ) (s : Shim net) → SameHandles s (expanded_sql stmt s).1
  unfolding expanded_sql
  expanded_sql_keeps stmt s = elim (Option-cases (as_stmt stmt s)) [
    | inl e ↦ rw (e, expanded_sql) (refl, refl)
    | inr (p, e) ↦ rw (e, expanded_sql) (malloc_cstr_keeps p.sql s)
  ]

  free_keeps : (raw : ℕ) (s : Shim net) → SameHandles s (free raw s).1
  unfolding free
  free_keeps raw s = (ground arith, ground arith)

  backup-Owned :
      (dest source : ℕ) (o q : Option (ProxyDb net)) (s : Shim net)
      → as_db dest s ≡ o
      → as_db source s ≡ q
      → Owned s
      → Owned (backup_between dest source o q s).1
  unfolding backup_between
  backup-Owned dest source (some p) q s e f v = failed-Owned dest no_backup p s e v
  backup-Owned dest source none (some p) s e f v = failed-Owned source no_backup p s f v
  backup-Owned dest source none none s e f v = v

  -- None of these calls makes or frees a handle.
  pub side_call-Owned : (c : SideCall) (s : Shim net) → Owned s → Owned (side_call c s)
  unfolding side_call blob_open backup_init backup_between deserialize free
  side_call-Owned (loads db has_err) s v = report-Owned db has_err (as_db db s) s refl v
  side_call-Owned (opens_blob db has_out) s v = elim (Option-cases (as_db db s)) [
    | inl e ↦ rw (e, side_call, blob_open) v
    | inr (p, e) ↦ rw (e, side_call, blob_open) (failed-Owned db no_blobs p s e v)
  ]
  side_call-Owned (backs_up dest source) s v =
      backup-Owned dest source (as_db dest s) (as_db source s) s refl refl v
  side_call-Owned (deserializes db) s v = elim (Option-cases (as_db db s)) [
    | inl e ↦ rw (e, side_call, deserialize) v
    | inr (p, e) ↦ rw (e, side_call, deserialize) (failed-Owned db no_deserialize p s e v)
  ]
  side_call-Owned (expands stmt) s v =
      Owned-same s (expanded_sql stmt s).1 (expanded_sql_keeps stmt s) v
  side_call-Owned (frees raw) s v = Owned-same s (free raw s).1 (free_keeps raw s) v
