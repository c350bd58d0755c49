-- ===== src/Cloudsync/Controller/Loop.antt =====
-- internal/cloudsync/controller.go, `Run` and `coalesce`: the background loop as a step relation. A
-- loop is at a place of the code, with the trigger channel full or empty, and with or without a change
-- that no sync has started after. Time is in the order of the steps.
use Prim.Native.Nat.{zero, suc}
use pos_agent.Base.{ℕ, ◌≡◌, Bool, true, false}

-- Where `Run` is: before its first sync, in the `select`, in `coalesce`, in `Sync`, or done.
pub data Place : Type 0 where
  starting waiting absorbing syncing stopped : Place

-- The place, the trigger, and whether a change waits.
pub data Loop : Type 0 where
  at : Place → Bool → Bool → Loop

abbrev pub place : Loop → Place
place (at p trigger unsynced) = p

abbrev pub is_unsynced : Loop → Bool
is_unsynced (at p trigger unsynced) = unsynced

-- What the loop does by itself: a sync that starts reads every change made before it.
pub data Move : Loop → Loop → Type 0 where
  first_sync : (t u : Bool) → Move (at starting t u) (at syncing t false)
  sync_done : (t u : Bool) → Move (at syncing t u) (at waiting t u)
  triggered : (u : Bool) → Move (at waiting true u) (at absorbing false u)
  absorbed : (u : Bool) → Move (at absorbing true u) (at absorbing false u)
  quiet : (t u : Bool) → Move (at absorbing t u) (at syncing t false)

-- A write with its `Nudge`: a channel that is full drops the nudge.
abbrev pub nudged : Loop → Loop
nudged (at p t u) = at p true true

-- What may happen next: a move, a nudge from the web layer, a tick of the timer, or the end of the
-- context, at the `select` or in `coalesce`.
pub data Step : Loop → Loop → Type 0 where
  moves : {a b : Loop} → Move a b → Step a b
  nudges : (a : Loop) → Step a (nudged a)
  ticks : (t u : Bool) → Step (at waiting t u) (at syncing t false)
  cancelled : (t u : Bool) → Step (at waiting t u) (at stopped t u)
  cut_short : (t u : Bool) → Step (at absorbing t u) (at syncing t false)

-- Since the start, when the changes of an earlier run may wait.
pub data Reachable : Loop → Type 0 where
  started : (u : Bool) → Reachable (at starting false u)
  stepped : {a b : Loop} → Reachable a → Step a b → Reachable b

-- A stretch in which no sync starts: so many moves of the loop, and so many nudges.
pub data Stretch : Loop → ℕ → ℕ → Loop → Type 0 where
  rests : (a : Loop) → Stretch a zero zero a
  goes_on :
      {a b c : Loop} {m k : ℕ}
      → Move a b
      → is_unsynced b ≡ true
      → Stretch b m k c
      → Stretch a (suc m) k c
  nudged_on : {a c : Loop} {m k : ℕ} → Stretch (nudged a) m k c → Stretch a m (suc k) c
