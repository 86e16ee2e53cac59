-- ===== src/Progress/Caption.antt =====
-- app/bot/services/progress_caption.py. A percent is a number of tenths.
use dwtgbot.Base.{
  ℕ, zero, suc, ◌+◌, ◌-◌, ◌/◌, ◌%◌, Option, none, some, [], ◌∷◌, ◌++◌, Text, codes, decimal,
  is_empty, min, ltb, ◌==◌, if◌then◌else◌,
}
use dwtgbot.World.Values.{
  ProgressStage, analyzing, downloading, processing, uploading, done, cancelled, failed,
}

abbrev pub stage_phrase : ProgressStage → Text
stage_phrase analyzing = codes "Анализирую ссылку…"
stage_phrase downloading = codes "Скачиваю"
stage_phrase processing = codes "Обрабатываю"
stage_phrase uploading = codes "Загружаю"
stage_phrase done = codes "Готово"
stage_phrase cancelled = codes "Отменено"
stage_phrase failed = codes "Не удалось скачать"

abbrev pub stale_caption : Text
stale_caption = codes "Скачивание продолжается, это может занять ещё немного времени…"

-- Python's `round` of a number of hundredths: a half goes to the even neighbour.
abbrev pub rounded : ℕ → ℕ
rounded n =
    let q = n / 100 in
    let r = n % 100 in if ltb r 50 then q else if r == 50 then q + q % 2 else q + 1

abbrev pub cells : ℕ → ℕ → Text
cells zero c = []
cells (suc n) c = c ∷ cells n c

-- A bar of ten cells.
unfoldable pub render_bar : ℕ → Text
render_bar tenths =
    let filled = min 10 (rounded tenths) in
    b'[' ∷ (cells filled 0x2588 ++ (cells (10 - filled) 0x2591 ++ codes "]"))

abbrev pub with_bar : ProgressStage → ℕ → Text
with_bar stage tenths =
    stage_phrase stage
    ++ (codes "… " ++ (render_bar tenths ++ (b' ' ∷ (decimal (tenths / 10) ++ codes " %"))))

abbrev pub failed_caption : Option Text → Text
failed_caption none = stage_phrase failed
failed_caption (some reason) =
    if is_empty reason then stage_phrase failed else stage_phrase failed ++ (codes ": " ++ reason)

unfoldable pub render_caption : ProgressStage → ℕ → Option Text → Text
unfolding render_bar decimal
render_caption downloading tenths reason = with_bar downloading tenths
render_caption processing tenths reason = with_bar processing tenths
render_caption uploading tenths reason = with_bar uploading tenths
render_caption failed tenths reason = failed_caption reason
render_caption analyzing tenths reason = stage_phrase analyzing
render_caption done tenths reason = stage_phrase done
render_caption cancelled tenths reason = stage_phrase cancelled
