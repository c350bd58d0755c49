-- ===== src/Boltstore/Analytics/Today.antt =====
-- internal/store/boltstore/boltstore.go: the summary of today that `Analytics` shows.
use pos_agent.Base.{Bool, not, ◌&&◌}
use pos_agent.Base.Int.{ℤ}
use pos_agent.Bolt.{Bolt}
use pos_agent.Domain.{Sale, before}
use pos_agent.Boltstore.Db.{Db}
use pos_agent.Boltstore.Analytics.{Calendar, Analytics, Starts}

abbrev pub sale_total : Sale → ℤ
sale_total sale = sale.total_cents

module _ (calendar : Calendar) where
  -- A sale of the window that is not before today's start.
  abbrev pub is_today : Starts calendar → Sale → Bool
  is_today starts sale =
      not (before sale.created_at starts.window) && not (before sale.created_at starts.today)
