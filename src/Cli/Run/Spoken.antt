-- ===== src/Cli/Run/Spoken.antt =====
-- A session speaks by the protocol.
use sqlite_broker.Prelude.{
  ℤ, ◌≡◌, refl, sym, ap, ◌∙◌, Bool, true, false, if-both, List, [], ◌∷◌, ◌++◌, append_assoc,
  append-nil, Option, none, some, bytes_eq, eq-bytes_eq, is_empty,
}
use mathlib.Core.Path.{subst}
use sqlite_broker.Prelude.Result.{Result, ok, err}
use sqlite_broker.Text.{Bytes, codes}
use sqlite_broker.Text.Space.{trim}
use sqlite_broker.Text.Search.{strip_prefix}
use sqlite_broker.Text.Search.Laws.{Front, strip_prefix-Front}
use sqlite_broker.Client.Program.{after, ◌>>◌, return, DbClient}
use sqlite_broker.Text.Decimal.{decimal_int}
use sqlite_broker.Hammer.Statements.{format}
use sqlite_broker.Cli.Run.{
  Ending, Next, go_on, hold, row_line, row_lines, done_line, emit_line, exec_answer, exec_command,
  query_answer, query_command, query_or_bad, exec_or, session_line, go_from, session_loop, session,
}
use sqlite_broker.Cli.Run.Dialogue.{
  ok_text, row_texts, Dialogue, closed, closed_holding, unread, skipped, holds, goes, not_go,
  executed, exec_failed, queried, query_failed, bad,
}
use sqlite_broker.Cli.Run.Written.{
  S, Says, Spoken, added, emit_line-takes, emit_lines-takes, grown, reread, exiting-takes,
  closing-Spoken,
}

empty-nil : (xs : Bytes) → is_empty xs ≡ true → xs ≡ []
empty-nil [] h = refl
empty-nil (x ∷ xs) h = cc

abbrev pub Comes : {A : Type 0} → Option A → Type 0
Comes none = ⊥
Comes (some x) = Unit

done_line-ok_text : (changes rowid : ℤ) → done_line changes rowid ≡ ok_text changes rowid
unfolding done_line format
done_line-ok_text changes rowid =
    ap (λ (t : Bytes). codes "OK changes=" ++ (decimal_int changes ++ (codes " rowid=" ++ t)))
      (append-nil (decimal_int rowid))

row_lines-row_texts : (rows : List (List Bytes)) → row_lines rows ≡ row_texts rows
unfolding row_line
row_lines-row_texts [] = refl
row_lines-row_texts (row ∷ rows) = ap (◌∷◌ (row_line row)) (row_lines-row_texts rows)

module _ (client : DbClient) (stdout : List Bytes → Bytes → Result Bytes (Unit {0}))
    (takes : (output : List Bytes) (line : Bytes) → stdout output line ≡ ok tt)
    (execs : (db : client.Db) (sql : Bytes) (w : client.World) → Comes (client.exec db sql w))
    (queries : (db : client.Db) (sql : Bytes) (w : client.World)
      → Comes (client.query db sql w)) where
  -- After an answer, and after the rest of the input, whatever the state.
  module _ (db : client.Db) (input : List (Result Bytes Bytes))
      (rest : (holding : Bool) (s : S client stdout takes)
        → Says client stdout takes db holding input s.world s.output
            (session_loop client stdout db input holding s)) where
    abbrev then_loop :
        Option (Result Bytes Next × S client stdout takes)
        → Option (Result Bytes Ending × S client stdout takes)
    then_loop = after (go_from client stdout (session_loop client stdout db input))

    -- What is said to a line, of a database in this state, after the lines that were written before.
    abbrev Answer :
        Bytes
        → client.World
        → List Bytes
        → Option (Result Bytes Next × S client stdout takes)
        → Type 0
    Answer line w before o =
        Says client stdout takes db false (ok line ∷ input) w before (then_loop o)

    exec_answer-Says :
        (sql : Bytes) (s : S client stdout takes) (w : client.World) (before : List Bytes)
        (o : Option (Result Bytes (Unit {0}) × client.World))
        → s.output ≡ before ++ (codes "START" ∷ [])
        → client.exec db sql w ≡ o
        → Comes o
        → Answer (codes "EXEC " ++ sql) w before (exec_answer client stdout db s o)
    exec_answer-Says sql s w before none e run c = absurd c
    exec_answer-Says sql s w before (some (err x, u)) e run c =
        subst (Answer (codes "EXEC " ++ sql) w before)
          (sym (exiting-takes client stdout takes x (record s { world = u })))
          (
            codes "START" ∷ (codes "ERR " ++ x) ∷ [],
            ap (λ (out : List Bytes). out ++ ((codes "ERR " ++ x) ∷ [])) e
                ∙ append_assoc before (codes "START" ∷ []) ((codes "ERR " ++ x) ∷ []),
            exec_failed run,
          )
    exec_answer-Says sql s w before (some (ok x, u)) e run c =
        let line = ok_text (client.changes db u) (client.last_insert_rowid db u) in
        let s' = record s { world = u } in
        subst
          (λ t.
            Answer (codes "EXEC " ++ sql) w before
              (after (λ x. return go_on) (emit_line client stdout t s')))
          (sym (done_line-ok_text (client.changes db u) (client.last_insert_rowid db u)))
          (subst (λ o. Answer (codes "EXEC " ++ sql) w before (after (λ x. return go_on) o))
            (sym (emit_line-takes client stdout takes line s'))
            (grown client stdout takes db false false input (ok (codes "EXEC " ++ sql) ∷ input) u w
              before (codes "START" ∷ line ∷ []) _ (λ output r v d. executed run d)
              (subst
                (λ out. Says client stdout takes db false input u out (
                  session_loop client stdout db input false
                    (added client stdout takes (line ∷ []) s')))
                (ap (λ (out : List Bytes). out ++ (line ∷ [])) e
                  ∙ append_assoc before (codes "START" ∷ []) (line ∷ []))
                (rest false (added client stdout takes (line ∷ []) s')))))

    query_answer-Says :
        (sql : Bytes) (s : S client stdout takes) (w : client.World) (before : List Bytes)
        (o : Option (Result Bytes (List (List Bytes)) × client.World))
        → s.output ≡ before ++ (codes "START" ∷ [])
        → client.query db sql w ≡ o
        → Comes o
        → Answer (codes "QUERY " ++ sql) w before (query_answer client stdout s o)
    query_answer-Says sql s w before none e run c = absurd c
    query_answer-Says sql s w before (some (err x, u)) e run c =
        subst (Answer (codes "QUERY " ++ sql) w before)
          (sym (exiting-takes client stdout takes x (record s { world = u })))
          (
            codes "START" ∷ (codes "ERR " ++ x) ∷ [],
            ap (λ (out : List Bytes). out ++ ((codes "ERR " ++ x) ∷ [])) e
                ∙ append_assoc before (codes "START" ∷ []) ((codes "ERR " ++ x) ∷ []),
            query_failed run,
          )
    query_answer-Says sql s w before (some (ok rows, u)) e run c =
        let lines = row_lines rows in
        let s' = record s { world = u } in
        let s2 = added client stdout takes lines s' in
        subst
          (λ o.
            Answer (codes "QUERY " ++ sql) w before
              (after (λ x. emit_line client stdout (codes "END") >> return go_on) o))
          (sym (emit_lines-takes client stdout takes lines s'))
          (subst (λ o. Answer (codes "QUERY " ++ sql) w before (after (λ x. return go_on) o))
            (sym (emit_line-takes client stdout takes (codes "END") s2))
            (grown client stdout takes db false false input (ok (codes "QUERY " ++ sql) ∷ input) u w
              before (codes "START" ∷ (lines ++ (codes "END" ∷ []))) _
              (λ output r v d.
                subst
                  (λ out.
                    Dialogue client db false (ok (codes "QUERY " ++ sql) ∷ input) w
                      (codes "START" ∷ out) r v)
                  (ap (λ (shown : List Bytes). shown ++ (codes "END" ∷ output))
                      (sym (row_lines-row_texts rows))
                    ∙ sym (append_assoc lines (codes "END" ∷ []) output))
                  (queried run d))
              (subst
                (λ out. Says client stdout takes db false input u out (
                  session_loop client stdout db input false
                    (added client stdout takes (codes "END" ∷ []) s2)))
                (ap (λ (out : List Bytes). (out ++ lines) ++ (codes "END" ∷ [])) e
                  ∙ append_assoc (before ++ (codes "START" ∷ [])) lines (codes "END" ∷ [])
                  ∙ append_assoc before (codes "START" ∷ []) (lines ++ (codes "END" ∷ [])))
                (rest false (added client stdout takes (codes "END" ∷ []) s2)))))

    abbrev Line :
        Bytes
        → S client stdout takes
        → (S client stdout takes → Option (Result Bytes Next × S client stdout takes))
        → Type 0
    Line line s m = Answer line s.world s.output (m s)

    query_or_bad-Says :
        (line : Bytes) (s : S client stdout takes) (o : Option Bytes)
        → is_empty line ≡ false
        → bytes_eq line (codes "HOLD") ≡ false
        → strip_prefix (codes "EXEC ") line ≡ none
        → strip_prefix (codes "QUERY ") line ≡ o
        → Front (codes "QUERY ") line o
        → Line line s (query_or_bad client stdout db line o)
    unfolding query_command
    query_or_bad-Says line s none filled other none_ e f =
        ([], sym (append-nil s.output), bad filled other none_ e)
    query_or_bad-Says line s (some sql) filled other none_ e f =
        subst (λ l. Line l s (query_command client stdout db sql)) (sym f)
          (subst
            (λ o.
              Answer (codes "QUERY " ++ sql) s.world s.output
                (after (λ x s. query_answer client stdout s (client.query db sql s.world)) o))
            (sym (emit_line-takes client stdout takes (codes "START") s))
            (query_answer-Says sql (added client stdout takes (codes "START" ∷ []) s) s.world
              s.output (client.query db sql s.world) refl refl (queries db sql s.world)))

    exec_or-Says :
        (line : Bytes) (s : S client stdout takes) (o : Option Bytes)
        → is_empty line ≡ false
        → bytes_eq line (codes "HOLD") ≡ false
        → strip_prefix (codes "EXEC ") line ≡ o
        → Front (codes "EXEC ") line o
        → Line line s (exec_or client stdout db line o)
    unfolding exec_command
    exec_or-Says line s none filled other e f =
        query_or_bad-Says line s _ filled other e refl (strip_prefix-Front (codes "QUERY ") line)
    exec_or-Says line s (some sql) filled other e f =
        subst (λ l. Line l s (exec_command client stdout db sql)) (sym f)
          (subst
            (λ o.
              Answer (codes "EXEC " ++ sql) s.world s.output
                (after (λ x s. exec_answer client stdout db s (client.exec db sql s.world)) o))
            (sym (emit_line-takes client stdout takes (codes "START") s))
            (exec_answer-Says sql (added client stdout takes (codes "START" ∷ []) s) s.world
              s.output (client.exec db sql s.world) refl refl (execs db sql s.world)))

    session_line-Says :
        (line : Bytes) (s : S client stdout takes)
        → Line line s (session_line client stdout db line)
    unfolding session_line
    session_line-Says line s =
        if-both (Line line s) (is_empty line)
          (λ h.
            subst
              (λ l.
                Says client stdout takes db false (ok l ∷ input) s.world s.output
                  (session_loop client stdout db input false s))
              (sym (empty-nil line h))
              (reread client stdout takes db false false input (ok [] ∷ input) s.world s.output _
                (λ output r v d. skipped d) (rest false s)))
          (λ h.
            if-both (Line line s) (bytes_eq line (codes "HOLD"))
              (λ k.
                subst (λ l. Line l s (emit_line client stdout (codes "HOLDING") >> return hold))
                  (sym (eq-bytes_eq line (codes "HOLD") k))
                  (subst (λ o. Answer (codes "HOLD") s.world s.output (after (λ x. return hold) o))
                    (sym (emit_line-takes client stdout takes (codes "HOLDING") s))
                    (grown client stdout takes db true false input (ok (codes "HOLD") ∷ input)
                      s.world s.world s.output (codes "HOLDING" ∷ []) _ (λ output r v d. holds d)
                      (rest true (added client stdout takes (codes "HOLDING" ∷ []) s)))))
              (λ k. exec_or-Says line s _ h k refl (strip_prefix-Front (codes "EXEC ") line)))

  session_loop-Says :
      (db : client.Db) (input : List (Result Bytes Bytes)) (holding : Bool)
      (s : S client stdout takes)
      → Says client stdout takes db holding input s.world s.output
          (session_loop client stdout db input holding s)
  unfolding session_loop
  session_loop-Says db [] false s = ([], sym (append-nil s.output), closed)
  session_loop-Says db [] true s = ([], sym (append-nil s.output), closed_holding)
  session_loop-Says db (err e ∷ input) holding s = ([], sym (append-nil s.output), unread)
  session_loop-Says db (ok line ∷ input) false s =
      session_line-Says db input (λ h s'. session_loop-Says db input h s') line s
  session_loop-Says db (ok go ∷ input) true s =
      if-both
        (λ (m : S client stdout takes → Option (Result Bytes Ending × S client stdout takes)).
          Says client stdout takes db true (ok go ∷ input) s.world s.output (m s))
        (bytes_eq (trim go) (codes "GO"))
        (λ h.
          reread client stdout takes db false true input (ok go ∷ input) s.world s.output _
            (λ output r v d. goes (eq-bytes_eq (trim go) (codes "GO") h) d)
            (session_loop-Says db input false s))
        (λ h. ([], sym (append-nil s.output), not_go h))

  -- Where the database opens and every call of it comes back, and the standard output takes every line,
  -- a session comes back, whatever it reads. It writes READY first, and then keeps the protocol: each line is
  -- answered before the lines after it; a statement is run, with the text of its line, on the state of
  -- the database that the lines before it have left, and is answered by START and what the database
  -- said, the changes and the rowid after an EXEC, the rows and END after a QUERY; where it fails the
  -- answer is its error, and the session exits and answers no more; after HOLD the next line must be GO.
  -- The connection is closed in the end, but where the session exited.
  pub session-Dialogue :
      (db_path : Bytes) (input : List (Result Bytes Bytes)) (s : S client stdout takes)
      (db : client.Db) (w : client.World)
      → client.open_db db_path s.world ≡ some (ok db, w)
      → Spoken client stdout takes db input w
          (s.output ++ (codes "READY" ∷ []))
          (session client stdout db_path input s)
  unfolding session
  session-Dialogue db_path input s db w e = rw e (
      rw (emit_line-takes client stdout takes (codes "READY") (record s { world = w })) (
        closing-Spoken client stdout takes db input w (s.output ++ (codes "READY" ∷ [])) _ (
          session_loop-Says db input false
            (added client stdout takes (codes "READY" ∷ []) (record s { world = w })))))
