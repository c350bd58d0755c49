-- ===== src/Cloudsync/Controller/Tests.antt =====
-- internal/cloudsync/controller.go: a nudge during the first sync.
use pos_agent.Base.{◌+◌, ◌≤◌, refl, true, false, arith}
use pos_agent.Cloudsync.Controller.Loop.{
  Loop, at, syncing, absorbing, Move, first_sync, sync_done, triggered, moves, nudges, Reachable,
  started, stepped, Stretch, rests, goes_on,
}
use pos_agent.Cloudsync.Controller.Nudges.{SyncsWithin, unsynced-moves, sync-soon}

abbrev nudged_once : Loop
nudged_once = at syncing true true

nudged_reached : Reachable nudged_once
nudged_reached =
    stepped (stepped (started false) (moves (first_sync false false)))
      (nudges (at syncing false false))

unsynced-moves_example : (b : Loop) × Move nudged_once b
unsynced-moves_example = unsynced-moves nudged_once nudged_reached refl (λ e. ground (arith, e))

to_absorbing : Stretch nudged_once 2 0 (at absorbing false true)
to_absorbing =
    goes_on (sync_done true true) refl
      (goes_on (triggered true) refl (rests (at absorbing false true)))

sync-soon_example : SyncsWithin 3 (at absorbing false true) × (2 ≤ 2 + 0)
sync-soon_example =
    sync-soon nudged_once (at absorbing false true) 2 0 nudged_reached (λ e. ground (arith, e))
      to_absorbing
