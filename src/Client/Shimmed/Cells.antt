-- ===== src/Client/Shimmed/Cells.antt =====
-- What a client makes of the cells of a row that a statement of the shim shows.
use mathlib.Core.Option
use sqlite_broker.Prelude.{
  ℕ, zero, suc, ◌+◌, ◌^◌, ◌<◌, ◌≡◌, ◌==◌, refl, sym, ap, ◌∙◌, arith, pos, true, false, List, [],
  ◌∷◌, ◌++◌, map, Option, none, some, length, get_elem?,
}
use mathlib.Core.Path.{subst}
use sqlite_broker.Prelude.Assoc.{get-insert_same}
use sqlite_broker.Text.{Bytes}
use sqlite_broker.Protocol.Message.{Cell, null, int, real, text, blob, Response}
use sqlite_broker.Broker.Statement.{c_text}
use sqlite_broker.Shim.State.{Net, ProxyStmt, Shim, as_stmt, put_stmt}
use sqlite_broker.Shim.Rows.{fill, cell_text, cell_at, text_ptr}
use sqlite_broker.Shim.Rows.Order.{Shows}
use sqlite_broker.Shim.Columns.{ask, as_i32, text_of, column_count, column_text}
use sqlite_broker.Client.Capi.{Api, cell}
use sqlite_broker.Client.Capi.Rows.{query_rows}
use sqlite_broker.Client.Capi.Rows as Capi
use sqlite_broker.Client.Shimmed.{shim_api}

get_elem?-map {ℓ κ} :
    {A : Type ℓ} {B : Type κ} (f : A → B) (xs : List A) (j : ℕ)
    → get_elem? (map f xs) j ≡ Option.map f (get_elem? xs j)
get_elem?-map f [] j = refl
get_elem?-map f (x ∷ xs) zero = refl
get_elem?-map f (x ∷ xs) (suc j) = get_elem?-map f xs j

mapped {ℓ κ} :
    {A : Type ℓ} {B : Type κ} (f : A → B) (o : Option A) {b : B}
    → Option.map f o ≡ some b
    → (a : A) × (o ≡ some a) × (f a ≡ b)
mapped f none h = absurd (cc)
mapped f (some a) h = (a, refl, cc)

pub length-map {ℓ κ} :
    {A : Type ℓ} {B : Type κ} (f : A → B) (xs : List A) → length (map f xs) ≡ length xs
length-map f [] = refl
length-map f (x ∷ xs) = ap suc (length-map f xs)

-- What the client makes of a cell: NULL is an empty text.
unfoldable pub shown_cell : (ℕ → Bytes) → Cell → Bytes
shown_cell show null = []
shown_cell show (int v) = c_text (cell_text show (int v))
shown_cell show (real v) = c_text (cell_text show (real v))
shown_cell show (text v) = c_text (cell_text show (text v))
shown_cell show (blob v) = c_text (cell_text show (blob v))

pointwise_Shows :
    (api : Api) (stmt i : ℕ) (w : api.World) (ts : List Bytes)
    → ((j : ℕ) (t : Bytes)
        → get_elem? ts j ≡ some t
        → cell (api.sqlite3_column_text stmt (pos (i + j)) w) ≡ t)
    → Capi.Shows api stmt i w ts
pointwise_Shows api stmt i w [] h = tt
pointwise_Shows api stmt i w (t ∷ ts) h =
    let none_more : i + 0 ≡ i = omega arith in
    (
      subst (λ (n : ℕ). cell (api.sqlite3_column_text stmt (pos n) w) ≡ t) none_more (h 0 t refl),
      pointwise_Shows api stmt (suc i) w ts (λ j u e.
          let one_more : i + suc j ≡ suc i + j = omega arith in
          subst (λ (n : ℕ). cell (api.sqlite3_column_text stmt (pos n) w) ≡ u) one_more
            (h (suc j) u e)),
    )

module _ (show : ℕ → Bytes) where
  text_shown :
      (q : ProxyStmt) (row : List Cell) (j : ℕ) (c : Cell)
      → Shows show row q
      → get_elem? row j ≡ some c
      → cell (text_of q (pos j) (cell_at q (pos j))) ≡ shown_cell show c
  unfolding text_of shown_cell text_ptr
  text_shown q row j c v e =
      let at_j : get_elem? q.texts j ≡ some (cell_text show c) =
        ap (λ (ts : List Bytes). get_elem? ts j) v.texts
        ∙ (get_elem?-map (cell_text show) row j ∙ ap (Option.map (cell_text show)) e) in
      rw (v.cells j ∙ e) (by_cell c at_j)
    where
      by_cell :
          (c : Cell)
          → get_elem? q.texts j ≡ some (cell_text show c)
          → cell (text_of q (pos j) (some c)) ≡ shown_cell show c
      by_cell null h = refl
      by_cell (int v) h = rw h refl
      by_cell (real v) h = rw h refl
      by_cell (text v) h = rw h refl
      by_cell (blob v) h = rw h refl

pub get_elem?-at {ℓ} :
    {A : Type ℓ} (before after_ : List A) (x : A)
    → get_elem? (before ++ (x ∷ after_)) (length before) ≡ some x
get_elem?-at [] after_ x = refl
get_elem?-at (y ∷ before) after_ x = get_elem?-at before after_ x

as_i32-small : (n : ℕ) → n < 2 ^ 31 → as_i32 (pos n) ≡ pos n
unfolding as_i32
as_i32-small n h = ground arith

pub fill-started : (resp : Response) (p : ProxyStmt) → (fill resp p).started ≡ true
unfolding fill
fill-started resp p = refl

module _ (net : Net) where
  abbrev pub row_shown : List Cell → List Bytes
  row_shown = map (shown_cell net.display_real)

  pub as_stmt-nonzero :
      (stmt : ℕ) (p : ProxyStmt) (s : Shim net) → as_stmt stmt s ≡ some p → (stmt == 0) ≡ false
  unfolding as_stmt
  as_stmt-nonzero stmt p s h = ground arith

  pub as_stmt-put_stmt :
      (stmt : ℕ) (q : ProxyStmt) (s : Shim net)
      → (stmt == 0) ≡ false
      → as_stmt stmt (put_stmt stmt q s) ≡ some q
  unfolding as_stmt put_stmt
  as_stmt-put_stmt stmt q s h = rw h (get-insert_same stmt q s.stmts)

  -- The statement at the handle shows this row to a client.
  pub Shows-IsRow :
      (stmt : ℕ) (row : List Cell) (q : ProxyStmt) (s : Shim net)
      → as_stmt stmt s ≡ some q
      → Shows net.display_real row q
      → length q.columns ≡ length row
      → length row < 2 ^ 31
      → Capi.IsRow (shim_api net) stmt s (row_shown row)
  unfolding column_count column_text ask
  Shows-IsRow stmt row q s h v same small = (
    rw (h, column_count, ask)
        (ap (λ (n : ℕ). as_i32 (pos n)) same
          ∙ (as_i32-small (length row) small
              ∙ ap pos (sym (length-map (shown_cell net.display_real) row)))),
    pointwise_Shows (shim_api net) stmt 0 s (row_shown row) (λ j t e.
        let from_0 : 0 + j ≡ j = omega arith in
        let (c, there, is) =
          mapped (shown_cell net.display_real) (get_elem? row j)
            (sym (get_elem?-map (shown_cell net.display_real) row j) ∙ e) in
        rw (h, column_text, ask)
          (subst (λ (i : ℕ). cell (text_of q (pos i) (cell_at q (pos i))) ≡ t) (sym from_0)
            (text_shown net.display_real q row j c v there ∙ is))),
  )
