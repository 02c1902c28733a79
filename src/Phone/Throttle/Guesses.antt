-- ===== src/Phone/Throttle/Guesses.antt =====
-- How many wrong PINs can be tried.
use ferusa.Base.{ℕ, ◌+◌, ◌-◌, ◌*◌, ◌≤◌, ◌≡◌, refl, sym, ap, ◌∙◌, Bool, false, arith}
use ferusa.Phone.Throttle.Cooldown.{PinAttemptState, ClockSnapshot, default, u64_max}
use ferusa.Phone.Throttle.Attempt.{AttemptStore, verify_pin_with_cooldown}
use ferusa.Phone.Throttle.Laws.{Device, Moves, AttemptLaws}
use ferusa.Phone.Throttle.Success.{IsReliable, verify-Returns}
use ferusa.Phone.Throttle.Allowance.{
  wrong_guess, count, Standing, free, allowance, Spends, Standing-later, spends, default-free,
}
use ferusa.Phone.Throttle.Trying.{Tried, Returns-Tried}

-- What becomes of a phone between tries with a wrong PIN and in them. A try is a call of
-- `verify_pin_with_cooldown` over any store, clock and argon2 that keep the laws for a wrong PIN and
-- of which no call fails.
pub data Tries {S : Type 0} (E : Type 0) (d : Device S) (s : S) : S → Type 0 where
  start : Tries E d s s
  waits : {t u : S} → Tries E d s t → Moves d (d.peek t) 0 t u → Tries E d s u
  tries :
      {t : S} (store : AttemptStore S E)
      → Tries E d s t
      → AttemptLaws d store false
      → IsReliable store
      → Tries E d s (verify_pin_with_cooldown store t).1

-- A state in which `n` PINs were compared, with what is left of `bound` until `last`.
record Room (boot last bound n : ℕ) (clock : ClockSnapshot) (p : PinAttemptState) : Type 0 where
  boots : clock.boot_count ≡ boot
  standing : Standing boot clock.elapsed_realtime_ms p
  left : 10000 * n + allowance standing last ≤ bound

module _ {S : Type 0} {d : Device S} where
  waits-Room :
      (boot last bound : ℕ) (t u : S)
      → Moves d (d.peek t) 0 t u
      → Room boot last bound (d.asked t) (d.clock t) (d.peek t)
      → Room boot last bound (d.asked u) (d.clock u) (d.peek u)
  waits-Room boot last bound t u m r =
      let (x, y) =
        Standing-later last r.standing (d.clock u).elapsed_realtime_ms m.time.not_before in
      rw m.state (record {
        boots = m.time.one_boot ∙ r.boots;
        standing = x;
        left = omega (arith, y, r.left, m.count);
      })

  Tried-Room :
      (boot last bound : ℕ) (t u : S)
      → (d.clock u).elapsed_realtime_ms ≤ last
      → last + 1800000 ≤ u64_max
      → Room boot last bound (d.asked t) (d.clock t) (d.peek t)
      → Tried d (d.clock t).boot_count t u
      → Room boot last bound (d.asked u) (d.clock u) (d.peek u)
  Tried-Room boot last bound t u h m r x =
      let e = ap (λ b. wrong_guess b (d.peek t) x.t x.t') (sym r.boots) ∙ x.step in
      let y =
        spends boot (d.clock t).elapsed_realtime_ms last x.t x.t' (d.peek t) r.standing x.from_start
          x.in_order (omega (arith, h, x.to_end)) m in
      after (x.on_boot ∙ r.boots) x.asked x.to_end r.left (rw (sym e) y)
    where
      after :
          {c : ℕ} {t' : ℕ} {b : Bool}
          → (d.clock u).boot_count ≡ boot
          → d.asked u ≡ d.asked t + count b
          → t' ≤ (d.clock u).elapsed_realtime_ms
          → 10000 * d.asked t + c ≤ bound
          → Spends boot last c t' (d.peek u, b)
          → Room boot last bound (d.asked u) (d.clock u) (d.peek u)
      after a n i l y =
          let (z, w) = Standing-later last y.standing (d.clock u).elapsed_realtime_ms i in
          record { boots = a; standing = z; left = omega (arith, w, n, l, y.spent) }

module _ {S E : Type 0} {d : Device S} where
  Tries-before :
      {s t : S} → Tries E d s t → (d.clock s).elapsed_realtime_ms ≤ (d.clock t).elapsed_realtime_ms
  Tries-before start = omega arith
  Tries-before (waits x m) = omega (arith, Tries-before x, m.time.not_before)
  Tries-before (tries {t} store x laws reliable) =
      let y = Returns-Tried {d = d} t _ (verify-Returns reliable laws t) in
      omega (arith, Tries-before x, y.from_start, y.in_order, y.to_end)

  Tries-Room :
      (last : ℕ) {s t : S}
      → Tries E d s t
      → d.peek s ≡ default
      → (d.clock t).elapsed_realtime_ms ≤ last
      → last + 1800000 ≤ u64_max
      → Room
          (d.clock s).boot_count
          last
          (10000 * d.asked s + (30000 + (last - (d.clock s).elapsed_realtime_ms)))
          (d.asked t)
          (d.clock t)
          (d.peek t)
  Tries-Room last start e h m =
      rw e (record { boots = refl; standing = free default-free (omega arith); left = omega arith })
  Tries-Room last {s} (waits {t} {u} x c) e h m =
      waits-Room _ last _ t u c (Tries-Room last x e (omega (arith, c.time.not_before)) m)
  Tries-Room last {s} (tries {t} store x laws reliable) e h m =
      let y = Returns-Tried {d = d} t _ (verify-Returns reliable laws t) in
      Tried-Room _ last _ t _ h m
        (Tries-Room last x e (omega (arith, h, y.from_start, y.in_order, y.to_end)) m) y

  -- Take one of the two PINs, with no failures stored, and try wrong PINs of that kind for as long
  -- as the phone is not restarted, with calls under which nothing fails. Then at most three are
  -- compared with the hash, and one more for every ten seconds that pass, if the clock stays half an
  -- hour below the end of u64.
  pub checked_bound :
      {s t : S}
      → Tries E d s t
      → d.peek s ≡ default
      → (d.clock t).elapsed_realtime_ms + 1800000 ≤ u64_max
      → 10000 * d.asked t
        ≤ 10000 * d.asked s
          + (30000 + ((d.clock t).elapsed_realtime_ms - (d.clock s).elapsed_realtime_ms))
  checked_bound {s} {t} x e m =
      let r = Tries-Room (d.clock t).elapsed_realtime_ms x e (omega arith) m in
      omega (arith, r.left)
