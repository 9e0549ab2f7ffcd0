-- ===== src/Cli/Run/Written.antt =====
-- What is written where the standard output takes every line.
use sqlite_broker.Prelude.{
  ◌≡◌, refl, ap, ◌∙◌, Bool, false, List, [], ◌∷◌, ◌++◌, append_assoc, append-nil, Option, none,
  some,
}
use sqlite_broker.Prelude.Result.{Result, ok, err}
use sqlite_broker.Text.{Bytes}
use sqlite_broker.Client.Program.{after, return, DbClient}
use sqlite_broker.Client.Program.Post.{Post, Post-mono}
use sqlite_broker.Cli.Run.{
  Ending, returned, exited, stop, err_line, Screen, emit_line, emit_lines, closing, exiting,
}
use sqlite_broker.Cli.Run.Dialogue.{Dialogue}

module _ (client : DbClient) (stdout : List Bytes → Bytes → Result Bytes (Unit {0}))
    (takes : (output : List Bytes) (line : Bytes) → stdout output line ≡ ok tt) where
  abbrev pub S : Type 0
  S = Screen client stdout

  -- These lines more were written, as an answer to the input, of a database that was in this state.
  abbrev pub Says :
      client.Db
      → Bool
      → List (Result Bytes Bytes)
      → client.World
      → List Bytes
      → Option (Result Bytes Ending × S)
      → Type 0
  Says db holding input w before = Post λ r s'.
      (output : List Bytes) × (s'.output ≡ before ++ output)
      × Dialogue client db holding input w output r s'.world

  abbrev pub added : List Bytes → S → S
  added lines s = record s { output = s.output ++ lines }

  pub emit_line-takes :
      (line : Bytes) (s : S) → emit_line client stdout line s ≡ some (ok tt, added (line ∷ []) s)
  unfolding emit_line
  emit_line-takes line s = rw (takes s.output line) refl

  pub emit_lines-takes :
      (lines : List Bytes) (s : S) → emit_lines client stdout lines s ≡ some (ok tt, added lines s)
  unfolding emit_lines
  emit_lines-takes [] s = rw (append-nil s.output) refl
  emit_lines-takes (line ∷ lines) s = rw (emit_line-takes line s) (
      emit_lines-takes lines (added (line ∷ []) s)
      ∙ ap (λ (out : List Bytes). some (ok tt, record s { output = out }))
          (append_assoc s.output (line ∷ []) lines))

  -- What was said, after lines that were written before.
  pub grown :
      (db : client.Db) (holding holding' : Bool) (input input' : List (Result Bytes Bytes))
      (w w' : client.World) (before lines : List Bytes) (o : Option (Result Bytes Ending × S))
      → ((output : List Bytes) (r : Result Bytes Ending) (v : client.World)
          → Dialogue client db holding input w output r v
          → Dialogue client db holding' input' w' (lines ++ output) r v)
      → Says db holding input w (before ++ lines) o
      → Says db holding' input' w' before o
  grown db holding holding' input input' w w' before lines o more =
      Post-mono _ _ o (λ r s' (output, e, d).
        (lines ++ output, e ∙ append_assoc before lines output, more output r s'.world d))

  pub reread :
      (db : client.Db) (holding holding' : Bool) (input input' : List (Result Bytes Bytes))
      (w : client.World) (before : List Bytes) (o : Option (Result Bytes Ending × S))
      → ((output : List Bytes) (r : Result Bytes Ending) (v : client.World)
          → Dialogue client db holding input w output r v
          → Dialogue client db holding' input' w output r v)
      → Says db holding input w before o
      → Says db holding' input' w before o
  reread db holding holding' input input' w before o more =
      Post-mono _ _ o (λ r s' (output, e, d). (output, e, more output r s'.world d))

  pub exiting-takes :
      (e : Bytes) (s : S) → exiting client stdout e s ≡ some (ok stop, added (err_line e ∷ []) s)
  exiting-takes e s = ap (after (λ x. return stop)) (emit_line-takes (err_line e) s)

  -- Where the connection is in the end: it is closed, but where the program exited.
  abbrev pub left : client.Db → Result Bytes Ending → client.World → client.World
  left db (ok exited) v = v
  left db (ok returned) v = client.close db v
  left db (err e) v = client.close db v

  abbrev pub Spoken :
      client.Db
      → List (Result Bytes Bytes)
      → client.World
      → List Bytes
      → Option (Result Bytes Ending × S)
      → Type 0
  Spoken db input w before = Post λ r s'.
      (output : List Bytes) × (v : client.World) × (s'.output ≡ before ++ output)
      × (s'.world ≡ left db r v)
      × Dialogue client db false input w output r v

  pub closing-Spoken :
      (db : client.Db) (input : List (Result Bytes Bytes)) (w : client.World) (before : List Bytes)
      (o : Option (Result Bytes Ending × S))
      → Says db false input w before o
      → Spoken db input w before (closing client stdout db o)
  closing-Spoken db input w before none h = h
  closing-Spoken db input w before (some (ok returned, s)) (output, e, d) =
      (output, s.world, e, refl, d)
  closing-Spoken db input w before (some (ok exited, s)) (output, e, d) =
      (output, s.world, e, refl, d)
  closing-Spoken db input w before (some (err x, s)) (output, e, d) = (output, s.world, e, refl, d)
