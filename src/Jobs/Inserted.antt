-- ===== src/Jobs/Inserted.antt =====
-- `update` of the row that was inserted last.
use dwtgbot.Base.{ℕ, ◌+◌, ◌≡◌, ◌∷◌, true, arith}
use dwtgbot.Errors.{returned}
use dwtgbot.Jobs.Entity.{Columns}
use dwtgbot.Jobs.Rows.{IsKeyed, update_where, update_where-absent, Rows}
use dwtgbot.Jobs.Repo.{JobsTable, to_entity, insert_row, update, version_matches, written}

same_key : (k v j : ℕ) (c : Columns) → version_matches k v (j, c) ≡ true → k ≡ j
same_key k v j c h = ground arith

rest_as_is :
    (k v : ℕ) (set : Columns → Columns) (r : Rows Columns)
    → IsKeyed k r
    → update_where (version_matches k v) set r ≡ r
rest_as_is k v set r keyed =
    update_where-absent k (version_matches k v) set k r (same_key k v) keyed (omega arith)

pub update-insert_row :
    (at : ℕ) (new c : Columns) (t : JobsTable)
    → IsKeyed t.next_id t.rows
    → new.status_version ≡ c.status_version
    → update at (to_entity t.next_id new) (insert_row c t).1 ≡ (
      returned (to_entity t.next_id (written at new c)),
      record t { rows = (t.next_id, written at new c) ∷ t.rows; next_id = t.next_id + 1 },
    )
unfolding insert_row update
update-insert_row at new c t keyed same =
    ground (arith, rest_as_is t.next_id new.status_version (written at new) t.rows keyed)
