-- ===== src/Shim/Extensions/Refused.antt =====
-- What a call that is refused leaves behind.
use mathlib.Core.Option
use sqlite_broker.Prelude.{
  Option-cases, inl, inr, ℕ, ◌+◌, length, ℤ, ◌==◌, ◌≡◌, refl, ap, ◌∙◌, arith, Bool, true, false, [],
  pos, none, if◌then◌else◌, some, if-both,
}
use sqlite_broker.Prelude.Assoc.{get, get-insert_same, get-insert_other}
use sqlite_broker.Text.{Bytes, codes}
use sqlite_broker.Shim.State.{Net, ProxyDb, Shim, mine, as_db, put_db, sqlite_error}
use sqlite_broker.Shim.Proxy.{fail, cstring_lossy}
use sqlite_broker.Shim.Exec.{malloc_cstr, report}
use sqlite_broker.Shim.Extensions.{
  no_extensions, no_blobs, no_deserialize, no_backup, failed, load_extension, blob_open,
  backup_between, backup_init, deserialize, SideCall, loads, opens_blob, backs_up, deserializes,
  expands, frees, side_call, refused_at,
}

-- The text that `sqlite3_errmsg` then gives.
abbrev pub refusal : SideCall → Bytes
refusal (loads db has_err) = codes "sqlite-broker does not load extensions"
refusal (opens_blob db has_out) = codes "sqlite-broker does not support incremental blobs"
refusal (backs_up dest source) = codes "sqlite-broker does not support backup"
refusal (deserializes db) = codes "sqlite-broker does not support deserialize"
refusal (expands stmt) = []
refusal (frees raw) = []

module _ {net : Net} where
  -- What the program gets: the code SQLITE_ERROR, which is 1, and no handle.
  abbrev pub Denies : SideCall → Shim net → Type 0
  Denies (loads db has_err) s = (load_extension db has_err s).0 ≡ mine (pos 1)
  Denies (opens_blob db has_out) s =
      ((blob_open db has_out s).0 ≡ mine (pos 1))
      × ((blob_open db has_out s).1 ≡ (if has_out then some 0 else none))
  Denies (backs_up dest source) s = (backup_init dest source s).0 ≡ mine 0
  Denies (deserializes db) s = (deserialize db s).0 ≡ mine (pos 1)
  Denies (expands stmt) s = Unit
  Denies (frees raw) s = Unit

  -- The connections and statements after a refusal at this connection, with this message.
  pub record Refused (db : ℕ) (message : Bytes) (p : ProxyDb net) (s s' : Shim net) : Type 0 where
    pub marked : get db s'.dbs ≡ some (record p { errcode = pos 1; errmsg = message })
    pub others : (j : ℕ) → (db == j) ≡ false → get j s'.dbs ≡ get j s.dbs
    pub stmts : s'.stmts ≡ s.stmts

  failed-Refused :
      (db : ℕ) (message : Bytes) (p : ProxyDb net) (s : Shim net)
      → cstring_lossy message ≡ message
      → Refused db message p s (failed db message p s)
  unfolding failed put_db fail
  failed-Refused db message p s plain = record {
    marked =
        get-insert_same db (fail message p) s.dbs
        ∙ ap (λ (m : Bytes). some (record p { errcode = pos 1; errmsg = m })) plain;
    others = λ j other. get-insert_other db j (fail message p) s.dbs other;
    stmts = refl;
  }

  abbrev pub SameHandles : Shim net → Shim net → Type 0
  SameHandles s s' = (s'.dbs ≡ s.dbs) × (s'.stmts ≡ s.stmts)

  pub malloc_cstr_keeps : (text : Bytes) (s : Shim net) → SameHandles s (malloc_cstr text s).1
  unfolding malloc_cstr
  malloc_cstr_keeps text s =
      if-both (λ (r : ℕ × Shim net). SameHandles s r.1)
        ((net.malloc (length text + 1) s.world).0 == 0) (λ full. (refl, refl))
        (λ there. (refl, refl))

  pub report_keeps :
      (has_err : Bool) (text : Bytes) (code : ℤ) (s : Shim net)
      → SameHandles s (report has_err text code s).2
  unfolding report
  report_keeps true text code s = malloc_cstr_keeps text s
  report_keeps false text code s = (refl, refl)

  report_code :
      (has_err : Bool) (text : Bytes) (code : ℤ) (s : Shim net)
      → (report has_err text code s).0 ≡ mine code
  unfolding report
  report_code true text code s = refl
  report_code false text code s = refl

  Refused-same :
      (db : ℕ) (message : Bytes) (p : ProxyDb net) (s t u : Shim net)
      → Refused db message p s t
      → SameHandles t u
      → Refused db message p s u
  Refused-same db message p s t u r (dbs, stmts) = record {
    marked = ap (get db) dbs ∙ r.marked;
    others = λ j other. ap (get j) dbs ∙ r.others j other;
    stmts = stmts ∙ r.stmts;
  }

  mapped_at : (at db : ℕ) (s : Shim net) → Option.map (λ d. at) (as_db at s) ≡ some db → at ≡ db
  mapped_at at db s h = ground arith

  backup-Refused :
      (dest source db : ℕ) (p : ProxyDb net) (s : Shim net)
      → refused_at (backs_up dest source) s ≡ some db
      → as_db db s ≡ some p
      → Refused db no_backup p s (backup_init dest source s).1
        × ((backup_init dest source s).0 ≡ mine 0)
  unfolding backup_init backup_between cstring_lossy
  backup-Refused dest source db p s h k = elim (Option-cases (as_db dest s)) [
    | inr (d, e) ↦
        let same : dest ≡ db = ground arith in
        rw same (rw k (failed-Refused db no_backup p s refl, refl))
    | inl e ↦
        let same : source ≡ db = ground arith in
        rw e (rw same (rw k (failed-Refused db no_backup p s refl, refl)))
  ]

  -- sqlite3_load_extension, sqlite3_blob_open, sqlite3_backup_init or sqlite3_deserialize on a connection
  -- of the shim: the program gets SQLITE_ERROR, or no backup; the connection's error code is SQLITE_ERROR
  -- then and its message names what is not supported, nothing else of it has changed, and no other
  -- connection and no statement has.
  pub side_call-Refused :
      (c : SideCall) (db : ℕ) (p : ProxyDb net) (s : Shim net)
      → refused_at c s ≡ some db
      → as_db db s ≡ some p
      → Refused db (refusal c) p s (side_call c s) × Denies c s
  unfolding side_call load_extension blob_open deserialize report cstring_lossy
  side_call-Refused (loads at has_err) db p s h k = rw (mapped_at at db s h) (
      rw (k, side_call, load_extension)
        (
          Refused-same db no_extensions p s (failed db no_extensions p s) _
              (failed-Refused db no_extensions p s refl)
              (report_keeps has_err no_extensions sqlite_error (failed db no_extensions p s)),
          report_code has_err no_extensions sqlite_error (failed db no_extensions p s),
        ))
  side_call-Refused (opens_blob at has_out) db p s h k =
      rw (mapped_at at db s h)
        (rw (k, side_call, blob_open) (failed-Refused db no_blobs p s refl, (refl, refl)))
  side_call-Refused (backs_up dest source) db p s h k = backup-Refused dest source db p s h k
  side_call-Refused (deserializes at) db p s h k =
      rw (mapped_at at db s h)
        (rw (k, side_call, deserialize) (failed-Refused db no_deserialize p s refl, refl))
  side_call-Refused (expands stmt) db p s h k = absurd (cc)
  side_call-Refused (frees raw) db p s h k = absurd (cc)
