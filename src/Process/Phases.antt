-- ===== src/Process/Phases.antt =====
-- The phases of `_download_and_deliver` before the row is written: analysis, download, delivery.
use dwtgbot.Base.{
  ℕ, ◌+◌, ◌*◌, ◌/◌, Bool, false, ◌&&◌, not, Option, none, some, List, ◌∷◌, ◌++◌, Text, codes,
  decimal, text_eq, is_empty, ltb, any, find, if◌then◌else◌,
}
use dwtgbot.Errors.{
  Exc, exc, app, storage, size_unknown, file_too_large, job_cancelled, Outcome, returned, raised,
}
use dwtgbot.Exec.{pure, raise, lift, try_, ◌>>=◌, ◌>>◌}
use dwtgbot.Jobs.Entity.{Platform, youtube, instagram, video, DownloadJob}
use dwtgbot.Jobs.Rows.{get_row}
use dwtgbot.World.Values.{
  ProgressStage, analyzing, downloading, processing, uploading, DownloadOption, MediaInfo,
  DownloadResult, DeliveryOutcome, DeliveredRecord, progress,
}
use dwtgbot.World.Ports.{Ports, Settings}
use dwtgbot.World.Actions.{Action, call, emit}
use dwtgbot.Delivery.Service.{deliver}
use dwtgbot.Process.Store.{id_or_zero, when_id}

-- `_emit_progress`; the reporter swallows its errors.
unfoldable pub emit_progress : DownloadJob → ℕ → ProgressStage → Action (Unit {0})
unfolding emit
emit_progress job percent stage = when_id job (λ k. emit (progress k percent stage))

-- `is_stale_youtube_cache` of app/application/services/media_cache_codec.py.
unfoldable pub is_stale_youtube_cache : MediaInfo → Bool
is_stale_youtube_cache info = elim (info.platform) [
  | instagram ↦ false
  | youtube ↦ not (any (λ e. text_eq (codes "size_by_height") e.0) info.raw)
]

-- `_pick_option`; an empty key counts as none.
unfoldable pub pick_option : List DownloadOption → Option Text → Option DownloadOption
pick_option options none = none
pick_option options (some key) =
    if is_empty key then none else find (λ o. text_eq o.key key) options

-- `bytes // 1024 // 1024`.
abbrev pub mib : ℕ → Text
mib n = decimal (n / 1024 / 1024)

-- A `raise` with a `user_message` of its own.
abbrev pub raise_user : {A : Type 0} → Exc → Text → Action A
raise_user e text = raise (record e { given_user_message = some text })

module _ (p : Ports) (s : Settings) where
  -- `LocalStorage.assert_free_space` as `_assert_free_space` re-raises it.
  unfoldable pub no_space : ℕ → Option ℕ → Action (Unit {0})
  unfolding decimal
  no_space minimum none = pure tt
  no_space minimum (some free) =
      if ltb free minimum
      then raise_user
          (exc storage (
            codes "Storage almost full: "
            ++ (mib free
                ++ (codes " MB free, STORAGE_MIN_FREE_MB="
                    ++ (mib minimum ++ codes " MB required")))))
          (codes
            "Сервис временно перегружен (нет свободного места). Попробуйте через несколько минут.")
      else pure tt

  unfoldable pub assert_free_space : Action (Unit {0})
  unfolding no_space
  assert_free_space =
      if s.has_storage && ltb 0 s.min_free_bytes
      then (call (λ n. returned (p.free_bytes n)) >>= no_space s.min_free_bytes)
      else pure tt

  -- `_check_cancel`.
  unfoldable pub check_cancel : DownloadJob → Action (Unit {0})
  unfolding decimal
  check_cancel job = elim (job.id) [
    | none ↦ pure tt
    | some k ↦
        if s.has_cancellation
        then (do
          stop ← call (λ n. returned (p.is_cancelled n k))
          if stop
              then raise
                  (exc job_cancelled (codes "job " ++ (decimal k ++ codes " cancelled by user")))
              else pure tt)
        else pure tt
  ]

  -- `_cached_info`: a failing read counts as a miss, a row that cannot be decoded raises.
  unfoldable pub cached_record : Platform → Outcome (Option Text) → Action (Option MediaInfo)
  cached_record platform (raised _) = pure none
  cached_record platform (returned none) = pure none
  cached_record platform (returned (some row)) = do
    info ← lift (p.info_from_cache row platform)
    if is_stale_youtube_cache info then pure none else pure (some info)

  unfoldable pub cached_info : DownloadJob → Action (Option MediaInfo)
  unfolding cached_record
  cached_info job =
      if s.has_media_cache
      then (try_ (call (λ n. p.get_fresh n job.source_url)) >>= cached_record job.platform)
      else pure none

  -- `_resolve_pre_download_size`.
  unfoldable pub probed : DownloadOption → Option ℕ → Action (Option ℕ)
  probed option (some size) = pure (some size)
  probed option none = elim (option.kind) [
    | video ↦
        raise_user (exc size_unknown (codes "Unable to determine size for option " ++ option.key)) (
          codes
            "Не удалось заранее определить размер файла. Попробуйте другую ссылку или качество поменьше.")
    | _ ↦ pure none
  ]

  unfoldable pub resolve_pre_download_size :
      DownloadJob → MediaInfo → DownloadOption → Action (Option ℕ)
  unfolding probed
  resolve_pre_download_size job info option = elim (option.estimated_size_bytes) [
    | some estimate ↦ pure (some estimate)
    | none ↦ call (λ n. p.probe_size n job.platform job.source_url info option) >>= probed option
  ]

  -- `_reject_if_estimate_exceeds_cap`.
  unfoldable pub reject_estimate : Option ℕ → Action (Unit {0})
  unfolding decimal
  reject_estimate none = pure tt
  reject_estimate (some n) =
      if ltb s.max_file_size_bytes n
      then raise_user
          (exc file_too_large (
            codes "Estimated size "
            ++ (decimal n
                ++ (codes " > MAX_FILE_SIZE_MB (" ++ (mib s.max_file_size_bytes ++ codes " MB)")))))
          (codes "Этот вариант слишком большой (оценка ~"
            ++ (mib n
                ++ (codes " МБ, лимит "
                    ++ (mib s.max_file_size_bytes ++ codes " МБ). Выберите качество поменьше."))))
      else pure tt

  unfoldable pub reject_if_estimate_exceeds_cap : DownloadOption → Option ℕ → Action (Unit {0})
  unfolding reject_estimate
  reject_if_estimate_exceeds_cap option none = reject_estimate option.estimated_size_bytes
  reject_if_estimate_exceeds_cap option (some n) = reject_estimate (some n)

  -- `_analyze`: the analysis and the option that the job names.
  abbrev pub info_or_ask : DownloadJob → Option MediaInfo → Action MediaInfo
  info_or_ask job (some info) = pure info
  info_or_ask job none = call (λ n. p.get_info n job.platform job.source_url)

  abbrev pub or_gone : DownloadJob → Option DownloadOption → Action DownloadOption
  or_gone job (some option) = pure option
  or_gone job none =
      raise_user
        (exc app (
          codes "Selected option not available anymore: "
          ++ elim (job.selected_option_key) [ none ↦ codes "None" | some k ↦ k ]))
        (codes "Выбранный вариант больше недоступен. Пришлите ссылку заново.")

  unfoldable pub analyze : DownloadJob → Action (MediaInfo × DownloadOption)
  unfolding cached_info pick_option resolve_pre_download_size reject_if_estimate_exceeds_cap
  analyze job = do
    cached ← cached_info job
    info ← info_or_ask job cached
    options ← lift (p.build_options job.platform info)
    selected ← or_gone job (pick_option options job.selected_option_key)
    estimate ← resolve_pre_download_size job info selected
    reject_if_estimate_exceeds_cap selected estimate
    pure (info, selected)

  -- `_download`: a title of the analysis replaces the provider's.
  unfoldable pub download : DownloadJob → MediaInfo → DownloadOption → Action DownloadResult
  download job info option = do
    target ← call (λ n. p.reset_job_dir n (id_or_zero job))
    result ← call (λ n. p.download n job.platform job.source_url option target info)
    pure (if is_empty info.title then result else record result { title = info.title })

  -- `selected.container or selected.label`.
  abbrev pub format_of : DownloadOption → Text
  format_of option = elim (option.container) [
    | none ↦ option.label
    | some c ↦ if is_empty c then option.label else c
  ]

  abbrev pub delivered_record :
      DeliveryOutcome → DownloadResult → MediaInfo → DownloadOption → DeliveredRecord
  delivered_record outcome result info option = record {
    method = outcome.method;
    public_url = outcome.public_url;
    primary_telegram_file_id = outcome.primary_telegram_file_id;
    delivered_path = outcome.delivered_path;
    file_size = outcome.file_size;
    mime_type = some result.primary_mime;
    title = info.title;
    media_id = info.media_id;
    selected_format = some (format_of option);
  }

  -- `RedisDeliveryLedger`: an entry lives for every attempt of the job and an hour more.
  abbrev pub ledger_ttl : ℕ
  ledger_ttl = s.job_timeout_seconds * (s.job_max_retries + 1) + 3600

  unfoldable pub ledger_record : ℕ → DeliveredRecord → Action (Unit {0})
  ledger_record k d w =
      let w' = record w { moment = w.moment + 1 } in
      (
        returned tt,
        if p.redis_up w.moment
            then record w' { ledger = (k, (d, p.clock w.moment + ledger_ttl)) ∷ w.ledger }
            else w',
      )

  unfoldable pub live_entry : ℕ → Option (DeliveredRecord × ℕ) → Option DeliveredRecord
  live_entry at none = none
  live_entry at (some (d, expires)) = if ltb at expires then some d else none

  unfoldable pub ledger_get : ℕ → Action (Option DeliveredRecord)
  unfolding live_entry
  ledger_get k w = (
    returned
        (if p.redis_up w.moment then live_entry (p.clock w.moment) (get_row k w.ledger) else none),
    record w { moment = w.moment + 1 },
  )

  abbrev pub when_ledger : DownloadJob → (ℕ → Action (Unit {0})) → Action (Unit {0})
  when_ledger job f = if s.has_ledger then when_id job f else pure tt

  -- Everything of `_download_and_deliver` up to the ledger entry.
  unfoldable pub deliver_phases : DownloadJob → Action DeliveredRecord
  unfolding assert_free_space emit_progress check_cancel analyze download deliver ledger_record
  deliver_phases job = do
    assert_free_space
    emit_progress job 5 analyzing
    check_cancel job
    (info, selected) ← analyze job
    emit_progress job 0 downloading
    check_cancel job
    result ← download job info selected
    emit_progress job 70 processing
    emit_progress job 95 uploading
    outcome ← deliver p s (id_or_zero job) job.chat_id result
    let delivered = delivered_record outcome result info selected
    when_ledger job (λ k. ledger_record k delivered)
    pure delivered
