-- ===== src/Checks/Links.antt =====
-- Links and requests on concrete rows.
use dwtgbot.Base.{
  ℕ, ◌+◌, ◌≤◌, ◌≡◌, refl, true, ◌&&◌, none, some, List, [], ◌∷◌, ◌++◌, codes, text_eq, ◌==◌,
  if◌then◌else◌, arith, decimal,
}
use dwtgbot.Errors.{returned, raised, exc, other}
use dwtgbot.Links.Entity.{LinkColumns, is_usable}
use dwtgbot.Links.Repo.{to_entity, row_of, try_register_use, deactivate_expired}
use dwtgbot.Links.Uses.{
  HasCount, LinkOp, register, sweep, run_ops, try_register_use_exact, downloads_bounded,
}
use dwtgbot.Links.Range.{starts_new_download}
use dwtgbot.Links.Counting.{range_counts_exact, range_raises}
use dwtgbot.Links.Serve.{download}
use dwtgbot.Links.Requests.{IsSound, download-IsSound}
use dwtgbot.Checks.Data.{link_columns, one_link, files, serve_settings, get_request}

try_register_use_exact_example :
    let (r, t') = try_register_use 100 (codes "tok") one_link in
    let used : LinkColumns → LinkColumns =
      λ c. record c { downloads_count = c.downloads_count + 1; updated_at = 100 } in
    (r ≡ elim (row_of (codes "tok") one_link) [
      | none ↦ none
      | some (k, c) ↦ if is_usable 100 c then some (to_entity (k, used c)) else none
    ])
    × ((token' : List ℕ)
        → row_of token' t' ≡ elim (row_of token' one_link) [
          | none ↦ none
          | some (k, c) ↦
              some (k, if text_eq (codes "tok") c.token && is_usable 100 c then used c else c)
        ])
try_register_use_exact_example = try_register_use_exact 100 (codes "tok") one_link (refl, tt)

-- Two requests for the one download that is left, and a sweep between them.
abbrev requests : List LinkOp
requests = register 100 (codes "tok") ∷ sweep 101 ∷ register 102 (codes "tok") ∷ []

downloads_bounded_example :
    let (handed_out, t') = run_ops (codes "tok") requests one_link in
    (1 + handed_out ≤ 2) × HasCount (codes "tok") 2 (1 + handed_out) t'
downloads_bounded_example =
    downloads_bounded requests (codes "tok") 2 1 one_link (refl, tt)
      (1, link_columns 1, refl, refl, refl, omega arith)

one_handed_out : (run_ops (codes "tok") requests one_link).0 ≡ 1
unfolding run_ops try_register_use deactivate_expired
one_handed_out = refl

download-IsSound_example :
    let (reply, t') = download files serve_settings get_request (codes "tok") one_link one_link in
    IsSound files serve_settings one_link reply t'
download-IsSound_example =
    download-IsSound files serve_settings get_request (codes "tok") one_link one_link

range_counts_exact_example :
    starts_new_download true (some (codes "bytes=" ++ (decimal 10 ++ (45 ∷ codes "19, 40-49"))))
    ≡ returned (10 == 0)
unfolding decimal
range_counts_exact_example = range_counts_exact 10 (codes "19, 40-49") (omega arith)

range_raises_example :
    starts_new_download true (some (codes "bytes=" ++ ((178 ∷ []) ++ (45 ∷ []))))
    ≡ raised (exc other (codes "ValueError"))
range_raises_example = range_raises (178 ∷ []) [] refl refl
