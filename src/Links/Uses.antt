-- ===== src/Links/Uses.antt =====
-- A link is never used more often than it allows.
use dwtgbot.Base.{
  ℕ, ◌+◌, ◌≤◌, ◌≡◌, refl, sym, ◌∙◌, inl, inr, true, false, ◌&&◌, none, some, List, [], ◌∷◌, Text,
  text_eq, text_eq→eq, arith, if◌then◌else◌, find, Bool-cases, is_some,
}
use dwtgbot.Jobs.Rows.{Rows, update_where}
use dwtgbot.Links.Entity.{LinkColumns, is_usable}
use dwtgbot.Links.Repo.{
  LinksTable, to_entity, has_token, row_of, is_expired_active, deactivate_expired, can_register,
  counted, try_register_use,
}

-- The unique constraint on tokens.
abbrev pub IsDistinct : Rows LinkColumns → Type 0
IsDistinct [] = Unit
IsDistinct ((k, c) ∷ r) = (find (has_token c.token) r ≡ none) × IsDistinct r

register_none :
    (now : ℕ) (token : Text) (r : Rows LinkColumns)
    → find (has_token token) r ≡ none
    → find (can_register now token) r ≡ none
register_none now token [] h = refl
register_none now token (x ∷ r) h = ground (arith, register_none now token r)

-- The `WHERE` clause picks the row of the token, if that link is usable.
find-can_register :
    (now : ℕ) (token : Text) (r : Rows LinkColumns)
    → IsDistinct r
    → find (can_register now token) r ≡ elim (find (has_token token) r) [
      | none ↦ none
      | some (k, c) ↦ if is_usable now c then some (k, c) else none
    ]
find-can_register now token [] h = refl
find-can_register now token (x ∷ r) h = elim (Bool-cases (text_eq token x.1.token)) [
  | inr differs ↦ rw differs (find-can_register now token r h.1)
  | inl same ↦
      let e = text_eq→eq token x.1.token same in
      ground (arith, register_none now token r (rw e h.0))
]

row_of-counted :
    (now : ℕ) (token token' : Text) (r : Rows LinkColumns)
    → find (has_token token') (update_where (can_register now token) (counted now) r)
      ≡ elim (find (has_token token') r) [
        | none ↦ none
        | some (k, c) ↦ some (k, if can_register now token (k, c) then counted now c else c)
      ]
row_of-counted now token token' [] = refl
row_of-counted now token token' (x ∷ r) = ground (arith, row_of-counted now token token' r)

-- With distinct tokens, `try_register_use` returns the link with its count one higher exactly when
-- the token's link is usable at that time, and `None` otherwise; that row is stored with the new
-- count and that time as its update, and every other row stays as it was.
pub try_register_use_exact :
    (now : ℕ) (token : Text) (t : LinksTable)
    → IsDistinct t.rows
    → let (r, t') = try_register_use now token t in
      let used : LinkColumns → LinkColumns =
        λ c. record c { downloads_count = c.downloads_count + 1; updated_at = now } in
      (r ≡ elim (row_of token t) [
        | none ↦ none
        | some (k, c) ↦ if is_usable now c then some (to_entity (k, used c)) else none
      ])
      × ((token' : Text)
          → row_of token' t' ≡ elim (row_of token' t) [
            | none ↦ none
            | some (k, c) ↦ some (k, if text_eq token c.token && is_usable now c then used c else c)
          ])
unfolding try_register_use
try_register_use_exact now token t distinct = (
  rw (find-can_register now token t.rows distinct, try_register_use) (ground arith),
  λ token'. row_of-counted now token token' t.rows,
)

-- The expiry sweep leaves every count, and no active row that has expired.
abbrev swept : ℕ → LinkColumns → LinkColumns
swept now c = record c { is_active = false; updated_at = now }

row_of-swept :
    (now : ℕ) (token : Text) (r : Rows LinkColumns)
    → find (has_token token) (update_where (is_expired_active now) (swept now) r)
      ≡ elim (find (has_token token) r) [
        | none ↦ none
        | some (k, c) ↦ some (k, if is_expired_active now (k, c) then swept now c else c)
      ]
row_of-swept now token [] = refl
row_of-swept now token (x ∷ r) = ground (arith, row_of-swept now token r)

-- What the API and the cleanup worker do to the table: a counted request, and the sweep.
pub data LinkOp : Type 0 where
  register : ℕ → Text → LinkOp
  sweep : ℕ → LinkOp

abbrev pub apply : LinkOp → LinksTable → LinksTable
apply (register now token) t = (try_register_use now token t).1
apply (sweep now) t = (deactivate_expired now t).1

-- Whether the operation handed out a download of this token's link.
abbrev pub served : Text → LinkOp → LinksTable → ℕ
served token (register now token') t =
    if text_eq token' token && is_some (try_register_use now token' t).0 then 1 else 0
served token (sweep now) t = 0

-- The downloads of a token that a sequence of operations hands out, and the table behind it.
unfoldable pub run_ops : Text → List LinkOp → LinksTable → ℕ × LinksTable
run_ops token [] t = (0, t)
run_ops token (op ∷ ops) t =
    let (n, t') = run_ops token ops (apply op t) in (served token op t + n, t')

-- The link of the token, with its limit and a count within it.
abbrev pub HasCount : Text → ℕ → ℕ → LinksTable → Type 0
HasCount token limit n t =
    (k : ℕ) × (c : LinkColumns) × (row_of token t ≡ some (k, c))
    × (c.max_downloads ≡ limit)
    × (c.downloads_count ≡ n)
    × (n ≤ limit)

IsDistinct-counted :
    (now : ℕ) (token : Text) (r : Rows LinkColumns)
    → IsDistinct r
    → IsDistinct (update_where (can_register now token) (counted now) r)
IsDistinct-counted now token [] h = tt
IsDistinct-counted now token (x ∷ r) h =
    ground (arith, IsDistinct-counted now token r h.1, row_of-counted now token x.1.token r)

IsDistinct-swept :
    (now : ℕ) (r : Rows LinkColumns)
    → IsDistinct r
    → IsDistinct (update_where (is_expired_active now) (swept now) r)
IsDistinct-swept now [] h = tt
IsDistinct-swept now (x ∷ r) h =
    ground (arith, IsDistinct-swept now r h.1, row_of-swept now x.1.token r)

apply-IsDistinct : (op : LinkOp) (t : LinksTable) → IsDistinct t.rows → IsDistinct (apply op t).rows
unfolding try_register_use deactivate_expired
apply-IsDistinct (register now token) t h = IsDistinct-counted now token t.rows h
apply-IsDistinct (sweep now) t h = IsDistinct-swept now t.rows h

row_of_token :
    (token : Text) (k : ℕ) (c : LinkColumns) (r : Rows LinkColumns)
    → find (has_token token) r ≡ some (k, c)
    → text_eq token c.token ≡ true
row_of_token token k c [] h = cc
row_of_token token k c (x ∷ r) h = ground (arith, row_of_token token k c r)

-- The answer of a register call, for a token whose link is known.
register_answer :
    (now : ℕ) (token : Text) (t : LinksTable) (k : ℕ) (c : LinkColumns)
    → IsDistinct t.rows
    → row_of token t ≡ some (k, c)
    → is_some (try_register_use now token t).0 ≡ is_usable now c
register_answer now token t k c d found =
    rw ((try_register_use_exact now token t d).0, found) (ground arith)

-- One operation raises the count by what it hands out.
apply-HasCount :
    (op : LinkOp) (token : Text) (limit n : ℕ) (t : LinksTable)
    → IsDistinct t.rows
    → HasCount token limit n t
    → HasCount token limit (n + served token op t) (apply op t)
unfolding deactivate_expired
apply-HasCount (register now token') token limit n t d (k, c, found, lim, cnt, le) =
    let at = text_eq→eq token c.token (row_of_token token k c t.rows found) in
    let row = (try_register_use_exact now token' t d).1 token in
    elim (Bool-cases (text_eq token' token)) [
      | inl same ↦
          let e = text_eq→eq token' token same in
          let answer = register_answer now token' t k c d (rw e found) in
          (
            k,
            if is_usable now c then counted now c else c,
            rw (row, found, sym at, same) refl,
            ground arith,
            rw (same, answer) (ground arith),
            rw (same, answer) (ground arith),
          )
      | inr differs ↦ (
        k,
        c,
        rw (row, found, sym at, differs) refl,
        lim,
        rw differs (omega arith),
        rw differs (omega arith),
      )
    ]
apply-HasCount (sweep now) token limit n t d (k, c, found, lim, cnt, le) = (
  k,
  if is_expired_active now (k, c) then swept now c else c,
  row_of-swept now token t.rows ∙ rw found refl,
  ground arith,
  ground arith,
  ground arith,
)

shuffle : (a b c : ℕ) → a + (b + c) ≡ a + b + c
shuffle a b c = omega arith

-- Whatever requests and sweeps come, in whatever order, a link within its limit hands out at most
-- the downloads that it has left: its count rises by exactly the number handed out and stays
-- within `max_downloads`.
pub downloads_bounded :
    (ops : List LinkOp) (token : Text) (limit n : ℕ) (t : LinksTable)
    → IsDistinct t.rows
    → HasCount token limit n t
    → let (handed_out, t') = run_ops token ops t in
      (n + handed_out ≤ limit) × HasCount token limit (n + handed_out) t'
unfolding run_ops
downloads_bounded [] token limit n t d h = ground (arith, h)
downloads_bounded (op ∷ ops) token limit n t d h =
    let rest =
      downloads_bounded ops token limit (n + served token op t) (apply op t)
        (apply-IsDistinct op t d) (apply-HasCount op token limit n t d h) in
    rw (shuffle n (served token op t) (run_ops token ops (apply op t)).0) rest
