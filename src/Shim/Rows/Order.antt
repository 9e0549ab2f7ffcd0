-- ===== src/Shim/Rows/Order.antt =====
-- The steps of an executed statement show its rows, one after the other, and then `SQLITE_DONE`.
use sqlite_broker.Prelude.{
  ℕ, zero, suc, ◌+◌, ◌-◌, ◌≤◌, ◌<◌, ◌≡◌, ◌==◌, refl, sym, ap, ◌∙◌, arith, ℤ, pos, false, ltb, List,
  [], ◌∷◌, map, Option, none, some, length, get_elem?, ◌>>=◌, lt→ltb,
}
use mathlib.Core.Path.{subst}
use sqlite_broker.Text.{Bytes}
use sqlite_broker.Protocol.Message.{Cell, Response}
use sqlite_broker.Shim.State.{ProxyStmt, sqlite_row, sqlite_done}
use sqlite_broker.Shim.Rows.{fill, cache_row, next_row, cell_text, cell_blob, cell_at}

-- The answer and the statement after the first step and `n` more.
unfoldable pub steps : (ℕ → Bytes) → ℕ → ProxyStmt → ℤ × ProxyStmt
steps show zero p = next_row show p
steps show (suc n) p = next_row show (steps show n p).1

-- The statement shows this row.
pub record Shows (show : ℕ → Bytes) (row : List Cell) (p : ProxyStmt) : Type 0 where
  pub cells : (i : ℕ) → cell_at p (pos i) ≡ get_elem? row i
  pub texts : p.texts ≡ map (cell_text show) row
  pub blobs : p.blobs ≡ map cell_blob row

get_elem?-in {ℓ} :
    {A : Type ℓ} (xs : List A) (k : ℕ) → k < length xs → (x : A) × (get_elem? xs k ≡ some x)
get_elem?-in [] k h = absurd (omega arith)
get_elem?-in (x ∷ xs) zero h = (x, refl)
get_elem?-in (x ∷ xs) (suc k) h = get_elem?-in xs k (omega arith)

in-length {ℓ} : {A : Type ℓ} (xs : List A) (k : ℕ) (x : A) → get_elem? xs k ≡ some x → k < length xs
in-length [] k x h = absurd (cc)
in-length (y ∷ ys) zero x h = omega arith
in-length (y ∷ ys) (suc k) x h = omega (arith, in-length ys k x h)

out-length {ℓ} : {A : Type ℓ} (xs : List A) (k : ℕ) → get_elem? xs k ≡ none → length xs ≤ k
out-length [] k h = omega arith
out-length (y ∷ ys) zero h = absurd (cc)
out-length (y ∷ ys) (suc k) h = omega (arith, out-length ys k h)

-- The statement with every field of its cursor written out.
abbrev pub placed : List (List Cell) → ℕ → ProxyStmt → ProxyStmt
placed rows k p = record p { failed = false; rows = rows; pos = k }

cache_row-row :
    (show : ℕ → Bytes) (p : ProxyStmt) (row : List Cell)
    → get_elem? p.rows (p.pos - 1) ≡ some row
    → cache_row show p ≡ record p { texts = map (cell_text show) row; blobs = map cell_blob row }
unfolding cache_row
cache_row-row show p row e = rw (e, cache_row) refl

before_suc {ℓ} : {A : Type ℓ} (xs : List A) (k : ℕ) → get_elem? xs (suc k - 1) ≡ get_elem? xs k
before_suc xs k = let e : suc k - 1 ≡ k = omega arith in ap (λ (n : ℕ). get_elem? xs n) e

-- The statement after the step that shows a row.
abbrev pub showing : (ℕ → Bytes) → List (List Cell) → ℕ → ProxyStmt → List Cell → ProxyStmt
showing show rows k p row = record (placed rows (suc k) p) {
  texts = map (cell_text show) row;
  blobs = map cell_blob row;
  last_step = sqlite_row;
}

pub next_row-row :
    (show : ℕ → Bytes) (rows : List (List Cell)) (k : ℕ) (p : ProxyStmt) (row : List Cell)
    → get_elem? rows k ≡ some row
    → k < length rows
    → next_row show (placed rows k p) ≡ (sqlite_row, showing show rows k p row)
unfolding next_row
next_row-row show rows k p row e h = rw (lt→ltb k (length rows) h) (
    ap (λ (q : ProxyStmt). (sqlite_row, record q { last_step = sqlite_row }))
      (cache_row-row show (placed rows (suc k) p) row (before_suc rows k ∙ e)))

pub next_row-done :
    (show : ℕ → Bytes) (rows : List (List Cell)) (k : ℕ) (p : ProxyStmt)
    → length rows ≤ k
    → next_row show (placed rows k p)
      ≡ (sqlite_done, record (placed rows k p) { last_step = sqlite_done })
unfolding next_row
next_row-done show rows k p h = let e : ltb k (length rows) ≡ false = ground arith in rw e refl

pub fill-placed : (resp : Response) (p : ProxyStmt) → fill resp p ≡ placed resp.rows 0 (fill resp p)
unfolding fill
fill-placed resp p = refl

pub showing-Shows :
    (show : ℕ → Bytes) (rows : List (List Cell)) (k : ℕ) (p : ProxyStmt) (row : List Cell)
    → get_elem? rows k ≡ some row
    → Shows show row (showing show rows k p row)
unfolding cell_at
showing-Shows show rows k p row e = record {
  cells = λ i.
      let z : (suc k == 0) ≡ false = ground arith in
      rw (z, cell_at)
        (ap (λ (o : Option (List Cell)). o >>= λ (r : List Cell). get_elem? r i)
          (before_suc rows k ∙ e));
  texts = refl;
  blobs = refl;
}

-- So many rows have been shown, this one last.
abbrev ShownRow : (ℕ → Bytes) → List (List Cell) → ℕ → List Cell → ℤ × ProxyStmt → Type 0
ShownRow show rows k row r = (q : ProxyStmt) × (r ≡ (sqlite_row, showing show rows k q row))

steps-ShownRow :
    (show : ℕ → Bytes) (resp : Response) (p : ProxyStmt) (k : ℕ) (row : List Cell)
    → get_elem? resp.rows k ≡ some row
    → k < length resp.rows
    → ShownRow show resp.rows k row (steps show k (fill resp p))
unfolding steps
steps-ShownRow show resp p zero row e h = (
  fill resp p,
  ap (next_row show) (fill-placed resp p) ∙ next_row-row show resp.rows 0 (fill resp p) row e h,
)
steps-ShownRow show resp p (suc k) row e h =
    let (before, there) = get_elem?-in resp.rows k (omega arith) in
    let (q, is) = steps-ShownRow show resp p k before there (omega arith) in
    (
      showing show resp.rows k q before,
      ap (λ (r : ℤ × ProxyStmt). next_row show r.1) is
          ∙ next_row-row show resp.rows (suc k) (showing show resp.rows k q before) row e h,
    )

-- The step in front of which so many rows have been shown.
steps-placed :
    (show : ℕ → Bytes) (resp : Response) (p : ProxyStmt) (k : ℕ)
    → k ≤ length resp.rows
    → (q : ProxyStmt) × (steps show k (fill resp p) ≡ next_row show (placed resp.rows k q))
unfolding steps
steps-placed show resp p zero h = (fill resp p, ap (next_row show) (fill-placed resp p))
steps-placed show resp p (suc k) h =
    let (row, there) = get_elem?-in resp.rows k (omega arith) in
    let (q, is) = steps-ShownRow show resp p k row there (omega arith) in
    (showing show resp.rows k q row, ap (λ (r : ℤ × ProxyStmt). next_row show r.1) is)

abbrev ended : List (List Cell) → ProxyStmt → ProxyStmt
ended rows q = record (placed rows (length rows) q) { last_step = sqlite_done }

-- When the rows are through, every step is `SQLITE_DONE`.
steps-ended :
    (show : ℕ → Bytes) (resp : Response) (p : ProxyStmt) (more : ℕ)
    → (q : ProxyStmt) × (steps show (more + length resp.rows) (fill resp p)
        ≡ (sqlite_done, ended resp.rows q))
unfolding steps
steps-ended show resp p zero =
    let (q, is) = steps-placed show resp p (length resp.rows) (omega arith) in
    let n : 0 + length resp.rows ≡ length resp.rows = omega arith in
    (
      q,
      ap (λ (m : ℕ). steps show m (fill resp p)) n
          ∙ (is ∙ next_row-done show resp.rows (length resp.rows) q (omega arith)),
    )
steps-ended show resp p (suc more) =
    let (q, is) = steps-ended show resp p more in
    let n : suc more + length resp.rows ≡ suc (more + length resp.rows) = omega arith in
    (
      ended resp.rows q,
      ap (λ (m : ℕ). steps show m (fill resp p)) n
          ∙ ap (λ (r : ℤ × ProxyStmt). next_row show r.1) is
          ∙ next_row-done show resp.rows (length resp.rows) (ended resp.rows q) (omega arith),
    )

-- After an execution that succeeded, the step that follows `k` others gives `SQLITE_ROW` and shows row
-- `k` of the answer where it has one, and gives `SQLITE_DONE` and shows no cell where it has none.
pub steps_rows :
    (show : ℕ → Bytes) (resp : Response) (p : ProxyStmt) (k : ℕ)
    → let r = steps show k (fill resp p) in
      ((row : List Cell)
        → get_elem? resp.rows k ≡ some row
        → (r.0 ≡ sqlite_row) × Shows show row r.1)
      × (get_elem? resp.rows k ≡ none → (r.0 ≡ sqlite_done) × ((i : ℤ) → cell_at r.1 i ≡ none))
unfolding cell_at
steps_rows show resp p k = (
  (λ row e.
      let (q, is) = steps-ShownRow show resp p k row e (in-length resp.rows k row e) in
      (
        ap (λ (r : ℤ × ProxyStmt). r.0) is,
        subst (λ (r : ℤ × ProxyStmt). Shows show row r.1) (sym is)
            (showing-Shows show resp.rows k q row e),
      )),
  (λ e.
      let (q, is) = steps-ended show resp p (k - length resp.rows) in
      let n : k - length resp.rows + length resp.rows ≡ k =
        omega (arith, out-length resp.rows k e) in
      let at = ap (λ (m : ℕ). steps show m (fill resp p)) (sym n) ∙ is in
      (ap (λ (r : ℤ × ProxyStmt). r.0) at, λ i. ap (λ (r : ℤ × ProxyStmt). cell_at r.1 i) at)),
)
