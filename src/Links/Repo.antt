-- ===== src/Links/Repo.antt =====
-- app/infrastructure/db/repositories/temp_links_repo_impl.py: each operation is one transaction on
-- the `temp_links` table. Tokens are unique by the table's constraint.
use dwtgbot.Base.{
  ℕ, ◌+◌, Bool, false, ◌&&◌, Option, none, some, [], ◌∷◌, Text, text_eq, ltb, leb, find, count,
}
use dwtgbot.Errors.{exc, other, Outcome, returned, raised}
use dwtgbot.Jobs.Rows.{Rows, update_where}
use dwtgbot.Links.Entity.{LinkColumns, TempLink}

pub record LinksTable : Type 0 where
  pub rows : Rows LinkColumns
  pub next_id : ℕ

abbrev pub to_entity : ℕ × LinkColumns → TempLink
to_entity (k, c) = record { id = some k; columns = c }

abbrev pub has_token : Text → ℕ × LinkColumns → Bool
has_token token (_, c) = text_eq token c.token

-- The row of a token.
abbrev pub row_of : Text → LinksTable → Option (ℕ × LinkColumns)
row_of token t = find (has_token token) t.rows

-- `session.add`; a second row with the token breaks the unique constraint.
unfoldable pub create : ℕ → TempLink → LinksTable → Outcome TempLink × LinksTable
create now link t =
    let c = record (link.columns) { created_at = now; updated_at = now } in
    elim (row_of link.token t) [
      | some _ ↦ (raised (exc other []), t)
      | none ↦ (
        returned (to_entity (t.next_id, c)),
        record t { rows = (t.next_id, c) ∷ t.rows; next_id = t.next_id + 1 },
      )
    ]

unfoldable pub get_by_token : Text → LinksTable → Option TempLink
get_by_token token t = elim (row_of token t) [ none ↦ none | some x ↦ some (to_entity x) ]

-- `is_active AND expires_at <= now`.
abbrev pub is_expired_active : ℕ → ℕ × LinkColumns → Bool
is_expired_active now (_, c) = c.is_active && leb c.expires_at now

unfoldable pub deactivate_expired : ℕ → LinksTable → ℕ × LinksTable
deactivate_expired now t = (
  count (is_expired_active now) t.rows,
  record t {
    rows =
        update_where (is_expired_active now) (λ c. record c { is_active = false; updated_at = now })
          t.rows;
  },
)

-- The `WHERE` clause of `try_register_use`.
abbrev pub can_register : ℕ → Text → ℕ × LinkColumns → Bool
can_register now token (k, c) =
    has_token token (k, c)
    && (c.is_active && (ltb now c.expires_at && ltb c.downloads_count c.max_downloads))

abbrev pub counted : ℕ → LinkColumns → LinkColumns
counted now c = record c { downloads_count = c.downloads_count + 1; updated_at = now }

-- The statement with its `RETURNING`: the row as updated, or `None` where no row passed.
unfoldable pub try_register_use : ℕ → Text → LinksTable → Option TempLink × LinksTable
try_register_use now token t = (
  elim (find (can_register now token) t.rows) [
    | none ↦ none
    | some (k, c) ↦ some (to_entity (k, counted now c))
  ],
  record t { rows = update_where (can_register now token) (counted now) t.rows },
)
