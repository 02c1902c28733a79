-- ===== src/Phone/Admission/Tests.antt =====
-- A source that asks for permits.
use ferusa.Base.{◌≤◌, ◌<◌, ◌≡◌, refl, true, Text, codes, ltb, is_some}
use ferusa.Phone.Admission.{new, try_acquire, drop_permit}
use ferusa.Phone.Admission.Counted.{
  Held, acquires, Reach, start, next, holds, acquired, started, Reach-Admits,
}

abbrev relay : Text
relay = codes "relay"

abbrev asked : Held → Held
asked h = acquired (try_acquire h.limiter relay) h.permits

-- Two permits, and a third that is refused.
abbrev asked_three : Held
asked_three = asked (asked (asked (started 2)))

three_asked : Reach (started 2) asked_three
three_asked = next (next (next start (acquires relay)) (acquires relay)) (acquires relay)

Reach-Admits_example :
    (holds asked_three.permits relay ≤ 2)
    × (is_some (try_acquire asked_three.limiter relay).0 ≡ ltb (holds asked_three.permits relay) 2)
    × (0 < 2
        → is_some (asked_three.limiter.counts relay) ≡ true
        → 0 < holds asked_three.permits relay)
Reach-Admits_example = Reach-Admits 2 relay three_asked

holds_two : holds asked_three.permits relay ≡ 2
unfolding try_acquire new
holds_two = refl

-- A permit that is dropped makes room.
gets_another :
    is_some (try_acquire (drop_permit (record { source = relay }) asked_three.limiter) relay).0
    ≡ true
unfolding try_acquire new drop_permit
gets_another = refl
