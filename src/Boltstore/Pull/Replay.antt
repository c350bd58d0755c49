-- ===== src/Boltstore/Pull/Replay.antt =====
-- internal/store/boltstore/sync.go, `ApplyPulled`: a batch that is pulled again changes nothing, and
-- a pull marks nothing to be pushed.
use pos_agent.Base.{◌≡◌, sym, ap, subst, Text, text_eq}
use pos_agent.Bolt.{Bolt, IsLawful}
use pos_agent.Boltstore.Db.{Db}
use pos_agent.Boltstore.Pull.{Pulled, apply_pulled, apply_pulled_settings}
use pos_agent.Boltstore.Pull.Settling.{pull_records, HasAll, HasAll-settings}
use pos_agent.Boltstore.Pull.Holding.{pull_records-HasAll, pull_records_skips}
use pos_agent.Boltstore.Pull.Merge.{pull_settings-only, pull_settings-again}

module _ {B : Bolt} (L : IsLawful B) where
  -- A batch of changes that is pulled again, as after a cursor that was not saved, changes no
  -- product, sale or stock event, no index, mark or sync state, and no value of a setting.
  pub apply_pulled-again :
      (pulled : Pulled) (db : Db B)
      → (apply_pulled pulled (apply_pulled pulled db) ≡ record (apply_pulled pulled db) {
        settings = (apply_pulled pulled (apply_pulled pulled db)).settings;
      })
        × ((j : Text)
            → B.get Text (apply_pulled pulled (apply_pulled pulled db)).settings j
              ≡ B.get Text (apply_pulled pulled db).settings j)
  unfolding apply_pulled
  apply_pulled-again pulled db =
      let recs = pull_records pulled db in
      let once = apply_pulled_settings pulled.settings recs in
      let held : HasAll pulled once =
        subst (HasAll pulled) (sym (pull_settings-only L pulled.settings recs))
          (HasAll-settings pulled recs once.settings (pull_records-HasAll L pulled db)) in
      let skipped : apply_pulled_settings pulled.settings (pull_records pulled once)
          ≡ apply_pulled_settings pulled.settings once =
        ap (apply_pulled_settings pulled.settings) (pull_records_skips L pulled once held) in
      subst
        (λ (t : Db B).
          (t ≡ record once { settings = t.settings })
          × ((j : Text) → B.get Text t.settings j ≡ B.get Text once.settings j))
        (sym skipped)
        (pull_settings-only L pulled.settings once, pull_settings-again L pulled.settings recs)
