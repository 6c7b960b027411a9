-- ===== src/Request/Limiter.antt =====
-- `Limiter` and `Permit`, which crates/impossible-voice-stt/src/lib.rs and
-- crates/impossible-voice-tts/src/lib.rs both declare. `fetch_update` and `fetch_sub` are atomic, so
-- a run of several threads is a row of such steps.
use impossible_voice.Prelude.{
  ℕ, suc, ◌+◌, ◌-◌, ◌≤◌, ◌<◌, ◌≡◌, refl, Option, none, some, arith, ltb, if◌then◌else◌, ◌%◌, ◌⊎◌,
}
use impossible_voice.Prelude.Word.{u64_mod}

pub record Limiter : Type 0 where
  pub active : ℕ
  pub maximum : ℕ

unfoldable pub new_limiter : ℕ → Limiter
new_limiter maximum = record { active = 0; maximum = maximum }

-- `none` is `Busy`; else the new state, with a permit handed out.
unfoldable pub acquire : Limiter → Option Limiter
acquire l = if ltb l.active l.maximum then some (record l { active = l.active + 1 }) else none

-- `Permit::drop`: `fetch_sub` wraps around.
unfoldable pub release : Limiter → Limiter
release l = record l { active = (l.active + (u64_mod - 1)) % u64_mod }

-- A step of one of the threads: an attempt to acquire, or the drop of a permit that is held.
-- `held` is the number of permits that live.
pub data Step : Limiter × ℕ → Limiter × ℕ → Type 0 where
  acquires : (l l' : Limiter) (held : ℕ) → acquire l ≡ some l' → Step (l, held) (l', suc held)
  refused : (l : Limiter) (held : ℕ) → acquire l ≡ none → Step (l, held) (l, held)
  drops : (l : Limiter) (held : ℕ) → Step (l, suc held) (release l, held)

pub data Reach (s : Limiter × ℕ) : Limiter × ℕ → Type 0 where
  here : Reach s s
  next : {t u : Limiter × ℕ} → Reach s t → Step t u → Reach s u

-- The counter is the number of permits, and never above the maximum.
pub record Counts (maximum : ℕ) (s : Limiter × ℕ) : Type 0 where
  pub counted : s.0.active ≡ s.1
  pub bounded : s.1 ≤ maximum
  pub fixed : s.0.maximum ≡ maximum
  pub word : maximum < u64_mod

Step-Counts : {maximum : ℕ} {s t : Limiter × ℕ} → Step s t → Counts maximum s → Counts maximum t
unfolding acquire release
Step-Counts (acquires l l' held e) c = ground arith
Step-Counts (refused l held e) c = c
Step-Counts (drops l held) c = ground arith

Reach-Counts : {maximum : ℕ} {s t : Limiter × ℕ} → Counts maximum s → Reach s t → Counts maximum t
Reach-Counts c here = c
Reach-Counts c (next r st) = Step-Counts st (Reach-Counts c r)

-- However the threads interleave, the permits that live are at most `maximum` and the counter is
-- their number; the next attempt gets a permit if fewer are out, and is refused if all are. The
-- maximum is a word of 64 bits.
pub limiter_bounds :
    {maximum : ℕ} {l : Limiter} {held : ℕ}
    → maximum < u64_mod
    → Reach (new_limiter maximum, 0) (l, held)
    → (held ≤ maximum)
      × (l.active ≡ held)
      × (((held < maximum) × (acquire l ≡ some (record { active = held + 1; maximum = maximum })))
          ⊎ ((held ≡ maximum) × (acquire l ≡ none)))
unfolding new_limiter acquire
limiter_bounds {maximum} {l} {held} w r =
    let c =
      Reach-Counts {maximum = maximum}
        (record { counted = refl; bounded = omega arith; fixed = refl; word = w }) r in
    ground (arith, c.counted, c.bounded, c.fixed)
