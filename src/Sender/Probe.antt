-- ===== src/Sender/Probe.antt =====
-- `_probe_video` of app/infrastructure/telegram/sender.py: what ffprobe's JSON gives of a video.
use dwtgbot.Base.{ℕ, Option, none, some, ◌==◌, if◌then◌else◌}

-- `_VideoMeta`.
pub record VideoMeta : Type 0 where
  pub width : Option ℕ
  pub height : Option ℕ
  pub duration : Option ℕ

abbrev pub no_meta : VideoMeta
no_meta = record { width = none; height = none; duration = none }

-- The values of the first stream and of the format, each as a number rounded down, where the JSON
-- has them; a missing stream has none.
pub record ProbedJson : Type 0 where
  pub width : Option ℕ
  pub height : Option ℕ
  pub duration : Option ℕ

-- How the run ends: no ffprobe, an exception of the kinds that are caught, or its return code with
-- what its output reads as; `none` there is one of the caught errors of reading.
pub data ProbeRun : Type 0 where
  no_ffprobe probe_failed : ProbeRun
  probe_ended : ℕ → Option ProbedJson → ProbeRun

-- A zero counts as missing.
abbrev pub nonzero : Option ℕ → Option ℕ
nonzero none = none
nonzero (some n) = if n == 0 then none else some n

abbrev pub meta_of : Option ProbedJson → VideoMeta
meta_of none = no_meta
meta_of (some j) = record {
  width = nonzero j.width;
  height = nonzero j.height;
  duration = j.duration;
}

unfoldable pub probe_video : ProbeRun → VideoMeta
probe_video no_ffprobe = no_meta
probe_video probe_failed = no_meta
probe_video (probe_ended code json) = if code == 0 then meta_of json else no_meta
