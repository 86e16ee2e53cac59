-- ===== src/Links/Serve.antt =====
-- app/api/public/downloads.py: the handler of `GET /d/{token}`, with `ensure_within` of
-- app/utils/filenames.py.
use dwtgbot.Base.{
  ℕ, Bool, true, false, ◌&&◌, ◌||◌, Option, none, some, List, [], ◌∷◌, Text, codes, text_eq,
  starts_with, if◌then◌else◌,
}
use dwtgbot.Errors.{Outcome, returned, raised}
use dwtgbot.Links.Entity.{TempLink, is_usable, can_resume}
use dwtgbot.Links.Repo.{LinksTable, get_by_token, try_register_use}
use dwtgbot.Links.Range.{starts_new_download}

-- Paths by their components.
abbrev pub Parts : Type 0
Parts = List Text

-- The file system and the clock; `clock` is read at each of the moments of one request.
pub record ServePorts : Type 0 where
  pub clock : ℕ → ℕ
  pub join : Text → Text → Text
  pub parts : Text → Parts
  pub resolve : Text → Parts
  pub is_file : Parts → Bool

pub record ServeSettings : Type 0 where
  pub storage_path : Text
  pub xaccel_enabled : Bool

pub record Request : Type 0 where
  pub is_get : Bool
  pub range : Option Text
  pub internal_xaccel : Option Text

-- The responses, each refusal by its metric; `failed` is an exception that leaves the handler.
pub data Reply : Type 0 where
  not_found forbidden gone expired failed : Reply
  file accel : Parts → Reply

-- `target.relative_to(base)`.
unfoldable pub relative_to : Parts → Parts → Option Parts
relative_to target [] = some target
relative_to [] (_ ∷ _) = none
relative_to (x ∷ target) (y ∷ base) = if text_eq x y then relative_to target base else none

-- `headers.get("x-internal-xaccel", "0") == "1"`.
abbrev is_one : Option Text → Bool
is_one none = false
is_one (some header) = text_eq header (codes "1")

module _ (p : ServePorts) (s : ServeSettings) where
  unfoldable pub ensure_within : Text → Option Parts
  ensure_within candidate =
      let base = p.resolve s.storage_path in
      let target = p.resolve (
        if starts_with (codes "/") candidate then candidate else p.join s.storage_path candidate) in
      elim (relative_to target base) [ none ↦ none | some _ ↦ some target ]

  unfoldable pub send : Request → Parts → Reply
  send r path =
      if s.xaccel_enabled && is_one r.internal_xaccel
      then elim (relative_to path (p.parts s.storage_path)) [ none ↦ failed | some rel ↦ accel rel ]
      else file path

  abbrev reply : Request → Parts → Option TempLink → Reply
  reply r path none = expired
  reply r path (some _) = send r path

  -- The link that the request may use, and the table behind the decision.
  unfoldable pub take_slot : Text → TempLink → Bool → LinksTable → Option TempLink × LinksTable
  take_slot token pre_check true t = try_register_use (p.clock 0) token t
  take_slot token pre_check false t = (
    if is_usable (p.clock 0) pre_check.columns || can_resume (p.clock 1) pre_check.columns
        then some pre_check
        else none,
    t,
  )

  unfoldable pub answer :
      Request → Text → TempLink → Parts → LinksTable → Outcome Bool → Reply × LinksTable
  unfolding take_slot
  answer r token pre_check path t (raised _) = (failed, t)
  answer r token pre_check path t (returned counted) =
      let (link, t') = take_slot token pre_check counted t in (reply r path link, t')

  unfoldable pub check_file :
      Request → Text → TempLink → LinksTable → Option Parts → Reply × LinksTable
  unfolding answer
  check_file r token pre_check t none = (forbidden, t)
  check_file r token pre_check t (some path) =
      let served = answer r token pre_check path t (starts_new_download r.is_get r.range) in
      if p.is_file path then served else (gone, t)

  unfoldable pub serve : Request → Text → LinksTable → Option TempLink → Reply × LinksTable
  unfolding check_file ensure_within
  serve r token t none = (not_found, t)
  serve r token t (some pre_check) =
      check_file r token pre_check t (ensure_within pre_check.columns.file_path)

  -- `download`: the row is read from the first table, and what follows runs on the table as other
  -- requests left it.
  unfoldable pub download : Request → Text → LinksTable → LinksTable → Reply × LinksTable
  unfolding serve
  download r token looked_up t = serve r token t (get_by_token token looked_up)
