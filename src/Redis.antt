-- ===== src/Redis.antt =====
-- Redis, as far as the program uses it: a parameter, by the commands' documentation. Times are in
-- milliseconds, the expiry of a key is set in seconds.
use dwtgbot.Base.{
  ℕ, ◌+◌, ◌-◌, ◌*◌, ◌≡◌, Bool, not, Option, none, some, Text, text_eq, ltb, is_some, if◌then◌else◌,
}

-- A key's value with the instant at which it expires, if one is set.
abbrev pub Entry : Type 0
Entry = Option (ℕ × Option ℕ)

-- The entry that a command sees at this time.
abbrev pub live_at : ℕ → Entry → Entry
live_at now none = none
live_at now (some (n, none)) = some (n, none)
live_at now (some (n, some expiry)) = if ltb now expiry then some (n, some expiry) else none

abbrev pub incremented_entry : Entry → ℕ × Option ℕ
incremented_entry none = (1, none)
incremented_entry (some (n, expiry)) = (n + 1, expiry)

abbrev pub with_expiry : ℕ → Entry → Entry
with_expiry expiry none = none
with_expiry expiry (some (n, _)) = some (n, some expiry)

-- The time left in milliseconds; `none` stands for the negative answers of `PTTL`.
abbrev pub time_left : ℕ → Entry → Option ℕ
time_left now none = none
time_left now (some (n, none)) = none
time_left now (some (n, some expiry)) = some (expiry - now)

-- `SET key 1 NX EX`: a held key stays as it is.
abbrev pub claimed : ℕ → Entry → Entry
claimed expiry none = some (1, some expiry)
claimed expiry (some e) = some e

-- Redis by its documented commands: each takes the time, the key and the store. `call_fails` is a
-- call that raises, with the store that it leaves.
pub record Redis : Type 1 where
  pub Store : Type 0
  pub entry : Text → Store → Entry
  pub incr : ℕ → Text → Store → ℕ × Store
  pub expire : ℕ → Text → ℕ → Store → Store
  pub pttl : ℕ → Text → Store → Option ℕ
  pub is_held : ℕ → Text → Store → Bool
  pub set_nx : ℕ → Text → ℕ → Store → Bool × Store
  pub delete : ℕ → Text → Store → Store
  pub call_fails : ℕ → Store → Option Store
  pub incr_answer :
      (now : ℕ) (k : Text) (r : Store)
      → (incr now k r).0 ≡ (incremented_entry (live_at now (entry k r))).0
  pub incr_entry :
      (now : ℕ) (k j : Text) (r : Store)
      → entry j (incr now k r).1
        ≡ (if text_eq j k then some (incremented_entry (live_at now (entry k r))) else entry j r)
  pub expire_entry :
      (now : ℕ) (k j : Text) (s : ℕ) (r : Store)
      → entry j (expire now k s r) ≡ (
          if text_eq j k then with_expiry (now + s * 1000) (live_at now (entry k r)) else entry j r)
  pub pttl_answer :
      (now : ℕ) (k : Text) (r : Store) → pttl now k r ≡ time_left now (live_at now (entry k r))
  pub held_answer :
      (now : ℕ) (k : Text) (r : Store) → is_held now k r ≡ is_some (live_at now (entry k r))
  pub set_answer :
      (now : ℕ) (k : Text) (s : ℕ) (r : Store)
      → (set_nx now k s r).0 ≡ not (is_some (live_at now (entry k r)))
  pub set_entry :
      (now : ℕ) (k j : Text) (s : ℕ) (r : Store)
      → entry j (set_nx now k s r).1
        ≡ (if text_eq j k then claimed (now + s * 1000) (live_at now (entry k r)) else entry j r)
  pub delete_entry :
      (now : ℕ) (k j : Text) (r : Store)
      → entry j (delete now k r) ≡ (if text_eq j k then none else entry j r)
