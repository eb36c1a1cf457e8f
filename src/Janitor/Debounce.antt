-- ===== src/Janitor/Debounce.antt =====
-- pkg/janitor/janitor.go: `Notify` and `Run`. A turn is a call of `Notify`, one round of the loop, or a
-- step of a timer. Both channels have room for one value, and sends that find no room are dropped. A
-- timer that has expired sends from a goroutine of its own, which `Stop` does not end.
-- The end of the context, which ends the loop, is left out.
use go_rego.Base.{
  ℕ, ◌+◌, ◌-◌, ◌≤◌, ◌<◌, ◌≡◌, refl, Bool, true, false, ◌&&◌, not, Option, none, some, List, [], ◌∷◌,
  arith, if◌then◌else◌, ltb, ◌==◌, Bool-cases, inl, inr,
}
use go_rego.Janitor.Cleanup.{Janitor}

pub record Loop : Type 0 where
  -- What the two channels hold.
  pub notified : Bool
  pub elapsed : Bool
  -- When the timer expires, and the goroutines of expired timers.
  pub deadline : Option ℕ
  pub in_flight : ℕ
  pub cleanups : ℕ

pub data Turn : Type 0 where
  notify : Turn
  -- The loop takes a notification, at a time.
  restart_timer : ℕ → Turn
  -- The timer expires if it is time.
  expire : ℕ → Turn
  -- The goroutine of an expired timer sends.
  send : Turn
  -- The loop takes the end of the period, and cleans up.
  clean : Turn

unfoldable pub new_loop : Loop
new_loop = record {
  notified = false;
  elapsed = false;
  deadline = none;
  in_flight = 0;
  cleanups = 0;
}

abbrev pub is_due : Option ℕ → ℕ → Bool
is_due none now = false
is_due (some deadline) now = not (ltb now deadline)

-- A turn that is not ready changes nothing.
unfoldable pub turn : Janitor → Loop → Turn → Loop
turn j l notify = record l { notified = true }
turn j l (restart_timer now) =
    if l.notified
    then record l { notified = false; elapsed = false; deadline = some (now + j.debounce_dur) }
    else l
turn j l (expire now) =
    if is_due l.deadline now then record l { deadline = none; in_flight = l.in_flight + 1 } else l
turn j l send =
    if l.in_flight == 0 then l else record l { elapsed = true; in_flight = l.in_flight - 1 }
turn j l clean = if l.elapsed then record l { elapsed = false; cleanups = l.cleanups + 1 } else l

unfoldable pub turns : Janitor → Loop → List Turn → Loop
turns j l [] = l
turns j l (t ∷ ts) = turns j (turn j l t) ts

abbrev pub has_deadline : Option ℕ → Bool
has_deadline none = false
has_deadline (some deadline) = true

-- Nothing makes the loop clean up any more, unless there is a notification.
abbrev pub is_idle : Loop → Bool
is_idle l = not l.notified && (not l.elapsed && (not (has_deadline l.deadline) && l.in_flight == 0))

turn-cleanups : (j : Janitor) (l : Loop) (t : Turn) → l.cleanups ≤ (turn j l t).cleanups
unfolding turn
turn-cleanups j l notify = ground arith
turn-cleanups j l (restart_timer now) = ground arith
turn-cleanups j l (expire now) = ground arith
turn-cleanups j l send = ground arith
turn-cleanups j l clean = ground arith

-- A loop that is not idle stays so until it has cleaned up.
turn-is_idle :
    (j : Janitor) (l : Loop) (t : Turn)
    → is_idle l ≡ false
    → is_idle (turn j l t) ≡ true
    → l.cleanups < (turn j l t).cleanups
unfolding turn
turn-is_idle j l notify h i = absurd (ground arith)
turn-is_idle j l (restart_timer now) h i = absurd (ground arith)
turn-is_idle j l (expire now) h i = absurd (ground arith)
turn-is_idle j l send h i = absurd (ground arith)
turn-is_idle j l clean h i = ground arith

turns-cleanups : (j : Janitor) (l : Loop) (ts : List Turn) → l.cleanups ≤ (turns j l ts).cleanups
unfolding turns
turns-cleanups j l [] = omega arith
turns-cleanups j l (t ∷ ts) = omega (arith, turn-cleanups j l t, turns-cleanups j (turn j l t) ts)

turns-is_idle :
    (j : Janitor) (l : Loop) (ts : List Turn)
    → is_idle l ≡ false
    → is_idle (turns j l ts) ≡ true
    → l.cleanups < (turns j l ts).cleanups
unfolding turns
turns-is_idle j l [] h i = absurd (ground arith)
turns-is_idle j l (t ∷ ts) h i = elim (Bool-cases (is_idle (turn j l t))) [
  | inl idle ↦ omega (arith, turn-is_idle j l t h idle, turns-cleanups j (turn j l t) ts)
  | inr busy ↦ omega (arith, turn-cleanups j l t, turns-is_idle j (turn j l t) ts busy i)
]

-- No notification is lost: once the loop has come to rest after a call of Notify, with both channels
-- empty and no timer left, it has cleaned up at least once since that call, in whatever order the timers,
-- their goroutines, the loop and further notifications take turns.
pub turns-notify :
    (j : Janitor) (l : Loop) (ts : List Turn)
    → is_idle (turns j l (notify ∷ ts)) ≡ true
    → l.cleanups < (turns j l (notify ∷ ts)).cleanups
unfolding turns turn
turns-notify j l ts i = turns-is_idle j (record l { notified = true }) ts refl i
