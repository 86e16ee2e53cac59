-- ===== src/Checks/Store.antt =====
-- Redis as a function from keys to entries, with no failing call, and with one.
use dwtgbot.Base.{ℕ, ◌+◌, ◌*◌, refl, not, none, some, Text, text_eq, is_some, ◌==◌, if◌then◌else◌}
use dwtgbot.Redis.{claimed, Entry, live_at, incremented_entry, with_expiry, time_left, Redis}

-- The calls at this instant fail.
abbrev pub keys_failing_at : ℕ → Redis
keys_failing_at down = record {
  Store = Text → Entry;
  entry = λ k r. r k;
  incr = λ now k r. (
    (incremented_entry (live_at now (r k))).0,
    λ j. if text_eq j k then some (incremented_entry (live_at now (r k))) else r j,
  );
  expire =
      λ now k s r j. if text_eq j k then with_expiry (now + s * 1000) (live_at now (r k)) else r j;
  pttl = λ now k r. time_left now (live_at now (r k));
  is_held = λ now k r. is_some (live_at now (r k));
  set_nx = λ now k s r. (
    not (is_some (live_at now (r k))),
    λ j. if text_eq j k then claimed (now + s * 1000) (live_at now (r k)) else r j,
  );
  delete = λ now k r j. if text_eq j k then none else r j;
  call_fails = λ now r. if now == down then some r else none;
  incr_answer = λ now k r. refl;
  incr_entry = λ now k j r. refl;
  expire_entry = λ now k j s r. refl;
  pttl_answer = λ now k r. refl;
  held_answer = λ now k r. refl;
  set_answer = λ now k s r. refl;
  set_entry = λ now k j s r. refl;
  delete_entry = λ now k j r. refl;
}

abbrev pub nothing : Text → Entry
nothing key = none

-- No call fails.
abbrev pub keys : Redis
keys = record {
  Store = Text → Entry;
  entry = λ k r. r k;
  incr = λ now k r. (
    (incremented_entry (live_at now (r k))).0,
    λ j. if text_eq j k then some (incremented_entry (live_at now (r k))) else r j,
  );
  expire =
      λ now k s r j. if text_eq j k then with_expiry (now + s * 1000) (live_at now (r k)) else r j;
  pttl = λ now k r. time_left now (live_at now (r k));
  is_held = λ now k r. is_some (live_at now (r k));
  set_nx = λ now k s r. (
    not (is_some (live_at now (r k))),
    λ j. if text_eq j k then claimed (now + s * 1000) (live_at now (r k)) else r j,
  );
  delete = λ now k r j. if text_eq j k then none else r j;
  call_fails = λ now r. none;
  incr_answer = λ now k r. refl;
  incr_entry = λ now k j r. refl;
  expire_entry = λ now k j s r. refl;
  pttl_answer = λ now k r. refl;
  held_answer = λ now k r. refl;
  set_answer = λ now k s r. refl;
  set_entry = λ now k j s r. refl;
  delete_entry = λ now k j r. refl;
}
