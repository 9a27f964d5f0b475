-- ===== src/Timer/Totals.antt =====
-- A timer's two times after any calls of it: the active time and the rest add up to the total time.
use mathlib.Core.Path.{subst}
use lseb.Prelude.{
  ℕ, ◌+◌, ◌-◌, ◌≤◌, ◌<◌, ◌≡◌, refl, sym, ◌∙◌, arith, true, false, ok, err, assert_failed,
  ok-injective, inl, inr, ◌⊎◌, word, add_size, sub_size,
}
use lseb.Timer.{Timer, create, start, pause, reset, active_time, total_time}

-- Calls that return, on a clock that does not go back: the reading at the last of them, the time that passed before a
-- `pause`, which is active, and the time that passed before a `start`, which is idle. `reset` forgets both.
pub data Calls : Timer → ℕ → ℕ → ℕ → Type 0 where
  created : (now : ℕ) → now < word → Calls (create now) now 0 0
  started :
      {t t' : Timer} {last busy idle : ℕ} (now : ℕ)
      → Calls t last busy idle
      → last ≤ now
      → now < word
      → start t now ≡ ok t'
      → Calls t' now busy (idle + (now - last))
  stopped :
      {t t' : Timer} {last busy idle : ℕ} (now : ℕ)
      → Calls t last busy idle
      → last ≤ now
      → now < word
      → pause t now ≡ ok t'
      → Calls t' now (busy + (now - last)) idle
  restarted :
      {t : Timer} {last busy idle : ℕ} (now : ℕ)
      → Calls t last busy idle
      → last ≤ now
      → now < word
      → Calls (reset t now) now 0 0

-- A timer that has counted `busy` and `idle` up to the reading `last`.
record Counted (t : Timer) (last busy idle : ℕ) : Type 0 where
  total : t.begin_time + (busy + idle) ≡ last
  active_at : t.active ≡ busy
  in_word : last < word
  standing : (t.paused ≡ true) ⊎ ((t.paused ≡ false) × (t.start_time ≡ last))

sub_size-later : (a b : ℕ) → b ≤ a → a < word → sub_size a b ≡ a - b
sub_size-later a b h k = omega arith

start-Counted :
    {t t' : Timer} {last busy idle : ℕ} (now : ℕ)
    → Counted t last busy idle
    → last ≤ now
    → now < word
    → start t now ≡ ok t'
    → Counted t' now busy (idle + (now - last))
unfolding start
start-Counted {t} {t'} {last} {busy} {idle} now c h w e = elim c.standing [
  | inl p ↦
      let started : start t now ≡ ok (record t { start_time = now; paused = false }) = rw p in
      subst (λ t'. Counted t' now busy (idle + (now - last))) (ok-injective (sym started ∙ e))
        (record {
          total = omega (arith, c.total, h);
          active_at = c.active_at;
          in_word = w;
          standing = inr (refl, refl);
        })
  | inr (p, s) ↦ let failed : start t now ≡ err assert_failed = rw p in cc
]

pause-Counted :
    {t t' : Timer} {last busy idle : ℕ} (now : ℕ)
    → Counted t last busy idle
    → last ≤ now
    → now < word
    → pause t now ≡ ok t'
    → Counted t' now (busy + (now - last)) idle
unfolding pause
pause-Counted {t} {t'} {last} {busy} {idle} now c h w e = elim c.standing [
  | inl p ↦ let failed : pause t now ≡ err assert_failed = rw p in cc
  | inr (p, s) ↦
      let stopped : pause t now
          ≡ ok
              (record t { active = add_size t.active (sub_size now t.start_time); paused = true }) =
        rw p in
      subst (λ t'. Counted t' now (busy + (now - last)) idle) (ok-injective (sym stopped ∙ e))
        (record {
          total = omega (arith, c.total, h);
          active_at = omega (arith, c.total, c.active_at, s, h, w);
          in_word = w;
          standing = inl refl;
        })
]

Calls-Counted : {t : Timer} {last busy idle : ℕ} → Calls t last busy idle → Counted t last busy idle
unfolding create reset
Calls-Counted (created now w) = record {
  total = omega arith;
  active_at = refl;
  in_word = w;
  standing = inl refl;
}
Calls-Counted (started now r h w e) = start-Counted now (Calls-Counted r) h w e
Calls-Counted (stopped now r h w e) = pause-Counted now (Calls-Counted r) h w e
Calls-Counted (restarted now r h w) = record {
  total = omega arith;
  active_at = refl;
  in_word = w;
  standing = inl refl;
}

-- After any calls that return, on a clock that does not go back, `total_time` is the active time
-- plus the idle time, both with what has passed since the last call: the timer is paused and only
-- `start` returns, or it runs and only `pause` returns, the other one being a failed assertion.
pub total_time-Calls :
    {t : Timer} {last busy idle : ℕ} (now : ℕ)
    → Calls t last busy idle
    → last ≤ now
    → now < word
    → ((active_time t now ≡ busy)
        × (total_time t now ≡ busy + (idle + (now - last)))
        × ((t' : Timer) × (start t now ≡ ok t'))
        × (pause t now ≡ err assert_failed))
      ⊎ ((active_time t now ≡ busy + (now - last))
          × (total_time t now ≡ busy + (now - last) + idle)
          × (start t now ≡ err assert_failed)
          × (t' : Timer) × (pause t now ≡ ok t'))
unfolding active_time total_time start pause
total_time-Calls {t} {last} {busy} {idle} now r h w =
    let c = Calls-Counted r in
    let total : sub_size now t.begin_time ≡ busy + idle + (now - last) =
      omega (arith, c.total, h, w) in
    elim c.standing [
      | inl p ↦ inl (
        rw p c.active_at,
        omega (arith, total),
        (record t { start_time = now; paused = false }, rw p),
        rw p,
      )
      | inr (p, s) ↦ inr (
        rw p (omega (arith, c.total, c.active_at, s, h, w)),
        omega (arith, total),
        rw p,
        record t { active = add_size t.active (sub_size now t.start_time); paused = true },
        rw p,
      )
    ]
