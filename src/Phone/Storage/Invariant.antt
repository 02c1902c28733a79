-- ===== src/Phone/Storage/Invariant.antt =====
-- The invariant of the five slots, on the view, and the changes that keep it.
use ferusa.Base.{ℕ, ◌≡◌, Bool, true, false, not, Option, none, some, ◌==◌, if◌then◌else◌, arith}
use ferusa.Phone.Storage.Types.{PairingGeneration}
use ferusa.Phone.Storage.Generation.{holds}
use ferusa.Phone.Storage.View.{active, staging, pending, committed, retiring, View, held, put, mark}

-- The generation that a slot names is stored.
abbrev pub covered : View → Option ℕ → Bool
covered v none = true
covered v (some u) = held v u

-- Two slots do not name one generation.
abbrev pub apart : Option ℕ → Option ℕ → Bool
apart (some u) (some w) = not (u == w)
apart _ _ = true

-- If two slots name one generation, the third names it too.
abbrev pub resumed : Option ℕ → Option ℕ → Option ℕ → Bool
resumed (some u) (some w) o = if u == w then holds o u else true
resumed _ _ o = true

-- Two slots do not name different generations.
abbrev pub agree : Option ℕ → Option ℕ → Bool
agree (some u) (some w) = u == w
agree _ _ = true

-- The generation that unlocks and the one that the desktop was told is committed are stored. A
-- generation that waits for its deletion is neither, nor about to be. Slots that still name the
-- active generation are left from an activation that was not finalized.
pub record Inv (v : View) : Type 0 where
  pub active_held : covered v (v.at active) ≡ true
  pub committed_held : covered v (v.at committed) ≡ true
  pub staging_kept : apart (v.at retiring) (v.at staging) ≡ true
  pub pending_kept : apart (v.at retiring) (v.at pending) ≡ true
  pub committed_kept : apart (v.at retiring) (v.at committed) ≡ true
  pub staging_resumed : resumed (v.at active) (v.at staging) (v.at committed) ≡ true
  pub pending_resumed : resumed (v.at active) (v.at pending) (v.at committed) ≡ true
  pub one_pending : agree (v.at pending) (v.at staging) ≡ true

-- A generation may be dropped if it is neither active nor committed.
pub Inv-drop :
    (v : View) (u : ℕ)
    → Inv v
    → holds (v.at active) u ≡ false
    → holds (v.at committed) u ≡ false
    → Inv (mark u none v)
Inv-drop v u i a b = ground arith

pub Inv-store : (v : View) (u : ℕ) (g : PairingGeneration) → Inv v → Inv (mark u (some g) v)
Inv-store v u g i = ground arith

pub Inv-clear_retiring : (v : View) → Inv v → Inv (put retiring none v)
Inv-clear_retiring v i = ground arith

pub Inv-clear_staging : (v : View) → Inv v → Inv (put staging none v)
Inv-clear_staging v i = ground arith

pub Inv-clear_pending : (v : View) → Inv v → Inv (put pending none v)
Inv-clear_pending v i = ground arith

-- The committed slot is cleared last.
pub Inv-clear_committed :
    (v : View) (u : ℕ)
    → Inv v
    → holds (v.at staging) u ≡ false
    → holds (v.at pending) u ≡ false
    → v.at active ≡ some u
    → Inv (put committed none v)
Inv-clear_committed v u i a b e = ground arith

-- What `begin_pending_pairing` stages is neither active nor about to be deleted.
pub Inv-stage :
    (v : View) (u : ℕ)
    → Inv v
    → v.at pending ≡ none
    → holds (v.at active) u ≡ false
    → holds (v.at retiring) u ≡ false
    → Inv (put staging (some u) v)
Inv-stage v u i e a b = ground arith

pub Inv-pend : (v : View) (u : ℕ) → Inv v → v.at staging ≡ some u → Inv (put pending (some u) v)
Inv-pend v u i e = ground arith

pub Inv-commit :
    (v : View) (u : ℕ)
    → Inv v
    → v.at pending ≡ some u
    → holds (v.at active) u ≡ false
    → held v u ≡ true
    → Inv (put committed (some u) v)
Inv-commit v u i e a h = ground arith

pub Inv-retire :
    (v : View) (u w : ℕ)
    → Inv v
    → v.at active ≡ some u
    → v.at committed ≡ some w
    → (u == w) ≡ false
    → Inv (put retiring (some u) v)
Inv-retire v u w i e f n = ground arith

pub Inv-activate :
    (v : View) (u : ℕ) → Inv v → v.at committed ≡ some u → Inv (put active (some u) v)
Inv-activate v u i e = ground arith
