-- ===== src/Links/Requests.antt =====
-- What one request for a link can do (app/api/public/downloads.py).
use dwtgbot.Base.{
  ℕ, ◌≡◌, refl, inl, inr, Bool, true, false, ◌||◌, Option, none, some, [], ◌∷◌, Text, arith,
  if◌then◌else◌, Bool-cases, is_some, ap, find, Option-cases,
}
use dwtgbot.Errors.{Outcome, returned, raised}
use dwtgbot.Links.Entity.{LinkColumns, TempLink, is_usable, can_resume}
use dwtgbot.Jobs.Rows.{Rows, update_where}
use dwtgbot.Links.Repo.{LinksTable, get_by_token, try_register_use, can_register, counted}
use dwtgbot.Links.Range.{starts_new_download}
use dwtgbot.Links.Serve.{
  Parts, ServePorts, ServeSettings, Request, Reply, expired, failed, file, accel, relative_to,
  ensure_within, send, take_slot, answer, check_file, serve, download,
}

update_where-none :
    (test : ℕ × LinkColumns → Bool) (f : LinkColumns → LinkColumns) (r : Rows LinkColumns)
    → find test r ≡ none
    → update_where test f r ≡ r
update_where-none test f [] h = refl
update_where-none test f (x ∷ r) h = ground (arith, update_where-none test f r)

-- A register call that answers `None` leaves the table.
unregistered :
    (at : ℕ) (token : Text) (t : LinksTable)
    → (try_register_use at token t).0 ≡ none
    → (try_register_use at token t).1 ≡ t
unfolding try_register_use
unregistered at token t refused =
    ap (λ r. record t { rows = r })
      (update_where-none (can_register at token) (counted at) t.rows (ground (arith, refused)))

-- A refusal costs nothing; a response with bytes is of an existing file inside the storage.
abbrev pub IsSound : ServePorts → ServeSettings → LinksTable → Reply → LinksTable → Type 0
IsSound p s t (file path) t' =
    (is_some (relative_to path (p.resolve s.storage_path)) ≡ true) × (p.is_file path ≡ true)
IsSound p s t (accel rel) t' =
    (path : Parts) × (is_some (relative_to path (p.resolve s.storage_path)) ≡ true)
    × (p.is_file path ≡ true)
    × (relative_to path (p.parts s.storage_path) ≡ some rel)
IsSound p s t failed t' = Unit
IsSound p s t _ t' = t' ≡ t

module _ (p : ServePorts) (s : ServeSettings) where
  sent-IsSound :
      (b : Bool) (o : Option Parts) (path : Parts) (t t' : LinksTable)
      → relative_to path (p.parts s.storage_path) ≡ o
      → is_some (relative_to path (p.resolve s.storage_path)) ≡ true
      → p.is_file path ≡ true
      → IsSound p s t (if b then elim o [ none ↦ failed | some rel ↦ accel rel ] else file path) t'
  sent-IsSound false o path t t' e inside there = (inside, there)
  sent-IsSound true none path t t' e inside there = tt
  sent-IsSound true (some rel) path t t' e inside there = (path, inside, there, e)

  send-IsSound :
      (r : Request) (path : Parts) (t t' : LinksTable)
      → is_some (relative_to path (p.resolve s.storage_path)) ≡ true
      → p.is_file path ≡ true
      → IsSound p s t (send p s r path) t'
  unfolding send
  send-IsSound r path t t' inside there = sent-IsSound _ _ path t t' refl inside there

  slot-IsSound :
      (r : Request) (token : Text) (pre : TempLink) (path : Parts) (counts : Bool) (t : LinksTable)
      → is_some (relative_to path (p.resolve s.storage_path)) ≡ true
      → p.is_file path ≡ true
      → let (link, t') = take_slot p s token pre counts t in
        IsSound p s t (elim link [ none ↦ expired | some _ ↦ send p s r path ]) t'
  unfolding take_slot
  slot-IsSound r token pre path true t inside there =
      elim (Option-cases (try_register_use (p.clock 0) token t).0) [
        | inl refused ↦ rw refused (unregistered (p.clock 0) token t refused)
        | inr (link, e) ↦
            rw e (send-IsSound r path t (try_register_use (p.clock 0) token t).1 inside there)
      ]
  slot-IsSound r token pre path false t inside there =
      elim (Bool-cases (is_usable (p.clock 0) pre.columns || can_resume (p.clock 1) pre.columns)) [
        | inl free ↦ rw free (send-IsSound r path t t inside there)
        | inr over ↦ rw over refl
      ]

  answer-IsSound :
      (r : Request) (token : Text) (pre : TempLink) (path : Parts) (t : LinksTable)
      (c : Outcome Bool)
      → is_some (relative_to path (p.resolve s.storage_path)) ≡ true
      → p.is_file path ≡ true
      → let (reply, t') = answer p s r token pre path t c in IsSound p s t reply t'
  unfolding answer
  answer-IsSound r token pre path t (raised _) inside there = tt
  answer-IsSound r token pre path t (returned counts) inside there =
      slot-IsSound r token pre path counts t inside there

  ensure_within_inside :
      (candidate : Text) (path : Parts)
      → ensure_within p s candidate ≡ some path
      → is_some (relative_to path (p.resolve s.storage_path)) ≡ true
  unfolding ensure_within
  ensure_within_inside candidate path h = ground (arith, h)

  file-IsSound :
      (r : Request) (token : Text) (pre : TempLink) (t : LinksTable) (o : Option Parts)
      → ensure_within p s pre.columns.file_path ≡ o
      → let (reply, t') = check_file p s r token pre t o in IsSound p s t reply t'
  unfolding check_file
  file-IsSound r token pre t none e = refl
  file-IsSound r token pre t (some path) e = elim (Bool-cases (p.is_file path)) [
    | inr missing ↦ rw missing refl
    | inl there ↦ rw there (
        answer-IsSound r token pre path t (starts_new_download r.is_get r.range)
          (ensure_within_inside pre.columns.file_path path e) there)
  ]

  serve-IsSound :
      (r : Request) (token : Text) (t : LinksTable) (o : Option TempLink)
      → let (reply, t') = serve p s r token t o in IsSound p s t reply t'
  unfolding serve
  serve-IsSound r token t none = refl
  serve-IsSound r token t (some pre) =
      file-IsSound r token pre t (ensure_within p s pre.columns.file_path) refl

-- Whatever the request and the token, and whatever other requests did between the lookup and the
-- count: a refusal (404, 403 or 410) leaves the links table as it was, and a response with bytes
-- is of an existing file inside the resolved storage path.
pub download-IsSound :
    (p : ServePorts) (s : ServeSettings) (r : Request) (token : Text) (looked_up t : LinksTable)
    → let (reply, t') = download p s r token looked_up t in IsSound p s t reply t'
unfolding download
download-IsSound p s r token looked_up t =
    serve-IsSound p s r token t (get_by_token token looked_up)
