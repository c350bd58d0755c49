-- ===== src/Cloudsync/Controller/Nudges.antt =====
-- internal/cloudsync/controller.go: no nudge is lost, and a nudged change is soon synced.
use Prim.Native.Nat.{zero, suc}
use pos_agent.Base.{inl, inr, Bool-cases, ℕ, ◌+◌, ◌≤◌, ◌≡◌, ◌≢◌, refl, true, false, arith}
use pos_agent.Cloudsync.Controller.Loop.{
  Loop, at, place, starting, waiting, absorbing, syncing, stopped, is_unsynced, nudged, Move,
  first_sync, sync_done, triggered, absorbed, quiet, Step, moves, nudges, ticks, cancelled,
  cut_short, Reachable, started, stepped, Stretch, rests, goes_on, nudged_on,
}

-- A change that waits will be noticed: the channel is full, or a sync comes next anyway.
abbrev IsNoticed : Loop → Type 0
IsNoticed (at starting t u) = Unit
IsNoticed (at waiting t u) = u ≡ true → t ≡ true
IsNoticed (at absorbing t u) = Unit
IsNoticed (at syncing t u) = u ≡ true → t ≡ true
IsNoticed (at stopped t u) = Unit

nudged-IsNoticed : (a : Loop) → IsNoticed (nudged a)
nudged-IsNoticed (at starting t u) = tt
nudged-IsNoticed (at waiting t u) = λ _. refl
nudged-IsNoticed (at absorbing t u) = tt
nudged-IsNoticed (at syncing t u) = λ _. refl
nudged-IsNoticed (at stopped t u) = tt

Step-IsNoticed : {a b : Loop} → IsNoticed a → Step a b → IsNoticed b
Step-IsNoticed h (moves (first_sync t u)) = λ e. cc
Step-IsNoticed h (moves (sync_done t u)) = h
Step-IsNoticed h (moves (triggered u)) = tt
Step-IsNoticed h (moves (absorbed u)) = tt
Step-IsNoticed h (moves (quiet t u)) = λ e. cc
Step-IsNoticed h (nudges a) = nudged-IsNoticed a
Step-IsNoticed h (ticks t u) = λ e. cc
Step-IsNoticed h (cancelled t u) = tt
Step-IsNoticed h (cut_short t u) = λ e. cc

Reachable-IsNoticed : {a : Loop} → Reachable a → IsNoticed a
Reachable-IsNoticed (started u) = tt
Reachable-IsNoticed (stepped before step) = Step-IsNoticed (Reachable-IsNoticed before) step

next-Move :
    (a : Loop) → IsNoticed a → is_unsynced a ≡ true → place a ≢ stopped → (b : Loop) × Move a b
next-Move (at starting t u) h e running = (at syncing t false, first_sync t u)
next-Move (at waiting true u) h e running = (at absorbing false u, triggered u)
next-Move (at waiting false u) h e running = absurd (let full = h e in cc)
next-Move (at absorbing t u) h e running = (at syncing t false, quiet t u)
next-Move (at syncing t u) h e running = (at waiting t u, sync_done t u)
next-Move (at stopped t u) h e running = absurd (running refl)

-- No nudge is lost: at every moment of a run that was not cancelled, while a change waits that no sync
-- has started after, the loop has a move to make without waiting for the timer or another nudge.
pub unsynced-moves :
    (a : Loop) → Reachable a → is_unsynced a ≡ true → place a ≢ stopped → (b : Loop) × Move a b
unsynced-moves a reached e running = next-Move a (Reachable-IsNoticed reached) e running

-- How many moves are left before a sync, without further nudges.
abbrev moves_left : Loop → ℕ
moves_left (at starting t u) = 0
moves_left (at waiting t u) = 1
moves_left (at absorbing true u) = 1
moves_left (at absorbing false u) = 0
moves_left (at syncing t u) = 2
moves_left (at stopped t u) = 0

moves_left-Move : {a b : Loop} → Move a b → is_unsynced b ≡ true → suc (moves_left b) ≤ moves_left a
moves_left-Move (first_sync t u) e = cc
moves_left-Move (sync_done t u) e = omega arith
moves_left-Move (triggered u) e = omega arith
moves_left-Move (absorbed u) e = omega arith
moves_left-Move (quiet t u) e = cc

moves_left-nudged : (a : Loop) → moves_left (nudged a) ≤ suc (moves_left a)
moves_left-nudged (at starting t u) = omega arith
moves_left-nudged (at waiting t u) = omega arith
moves_left-nudged (at absorbing true u) = omega arith
moves_left-nudged (at absorbing false u) = omega arith
moves_left-nudged (at syncing t u) = omega arith
moves_left-nudged (at stopped t u) = omega arith

moves_left-le : (a : Loop) → moves_left a ≤ 2
moves_left-le (at starting t u) = omega arith
moves_left-le (at waiting t u) = omega arith
moves_left-le (at absorbing true u) = omega arith
moves_left-le (at absorbing false u) = omega arith
moves_left-le (at syncing t u) = omega arith
moves_left-le (at stopped t u) = omega arith

Stretch-left : {a b : Loop} {m k : ℕ} → Stretch a m k b → m ≤ moves_left a + k
Stretch-left (rests a) = omega arith
Stretch-left (goes_on {a = a} {b = b} move e rest) =
    let now = moves_left-Move move e in let later = Stretch-left rest in omega arith
Stretch-left (nudged_on {a = a} rest) =
    let now = moves_left-nudged a in let later = Stretch-left rest in omega arith

Stretch-Reachable : {a b : Loop} {m k : ℕ} → Reachable a → Stretch a m k b → Reachable b
Stretch-Reachable reached (rests a) = reached
Stretch-Reachable reached (goes_on move e rest) =
    Stretch-Reachable (stepped reached (moves move)) rest
Stretch-Reachable reached (nudged_on {a = a} rest) =
    Stretch-Reachable (stepped reached (nudges a)) rest

nudged-runs : (a : Loop) → place a ≢ stopped → place (nudged a) ≢ stopped
nudged-runs (at p t u) running = running

Move-runs : {a b : Loop} → Move a b → place b ≢ stopped
Move-runs (first_sync t u) = λ e. cc
Move-runs (sync_done t u) = λ e. cc
Move-runs (triggered u) = λ e. cc
Move-runs (absorbed u) = λ e. cc
Move-runs (quiet t u) = λ e. cc

Stretch-runs : {a b : Loop} {m k : ℕ} → place a ≢ stopped → Stretch a m k b → place b ≢ stopped
Stretch-runs running (rests a) = running
Stretch-runs running (goes_on move e rest) = Stretch-runs (Move-runs move) rest
Stretch-runs running (nudged_on {a = a} rest) = Stretch-runs (nudged-runs a running) rest

-- A sync that has read every change starts within so many moves, whichever moves the loop makes: no
-- change waits, or there is a move to make and after each that there is a sync starts in time.
pub data SyncsWithin : ℕ → Loop → Type 0 where
  synced : {n : ℕ} {a : Loop} → is_unsynced a ≡ false → SyncsWithin n a
  goes :
      {n : ℕ} {a : Loop}
      → (b : Loop) × Move a b
      → ((c : Loop) → Move a c → SyncsWithin n c)
      → SyncsWithin (suc n) a

left-SyncsWithin :
    (n : ℕ) (a : Loop) → IsNoticed a → place a ≢ stopped → moves_left a ≤ n → SyncsWithin (suc n) a
left-SyncsWithin zero a h running few = elim (Bool-cases (is_unsynced a)) [
  | inl waits ↦ goes (next-Move a h waits running) (λ c m. elim (Bool-cases (is_unsynced c)) [
    | inl still ↦ absurd (let less = moves_left-Move m still in omega arith)
    | inr e ↦ synced e
  ])
  | inr e ↦ synced e
]
left-SyncsWithin (suc n) a h running few = elim (Bool-cases (is_unsynced a)) [
  | inl waits ↦ goes (next-Move a h waits running) (λ c m. elim (Bool-cases (is_unsynced c)) [
    | inl still ↦
        let less = moves_left-Move m still in
        left-SyncsWithin n c (Step-IsNoticed h (moves m)) (Move-runs m) (omega arith)
    | inr e ↦ synced e
  ])
  | inr e ↦ synced e
]

-- A change is synced soon. At any point of a run that was not cancelled, whichever moves the loop makes,
-- a sync that reads every change starts within three of them, without the timer or another nudge; and
-- where nudges go on, a stretch in which no sync starts has at most two moves and one for each nudge.
pub sync-soon :
    (a b : Loop) (m k : ℕ)
    → Reachable a
    → place a ≢ stopped
    → Stretch a m k b
    → SyncsWithin 3 b × (m ≤ 2 + k)
sync-soon a b m k reached running stretch =
    let h = Stretch-left stretch in
    let few = moves_left-le a in
    (
      left-SyncsWithin 2 b (Reachable-IsNoticed (Stretch-Reachable reached stretch))
          (Stretch-runs running stretch) (moves_left-le b),
      omega arith,
    )
