-- ===== src/Web/Export/Ledger.antt =====
-- internal/web/export.go, `handleSalesExport`: the file holds the sales of the range.
use pos_agent.Base.{◌≡◌, ◌≤◌, ◌<◌, ◌↔◌, ◌⊎◌, not, ◌||◌, some, Text, arith, In, In-keep_if, keep_if}
use pos_agent.Base.Sort.{sort, earlier, later, In-sort, IsAscending, sort-IsAscending}
use pos_agent.Bolt.{Bolt, IsLawful}
use pos_agent.Domain.{Time, Sale, is_zero, before}
use pos_agent.Boltstore.Db.{Db}
use pos_agent.Boltstore.Sales.{sales_since, created, values}
use pos_agent.Boltstore.Sales.Values.{In-values}
use pos_agent.Web.Export.Tables.{ledger}

-- A sale of the range: not before its start, and before its end where it has one.
abbrev pub InRange : Time → Time → Sale → Type 0
InRange from to sale = (from ≤ sale.created_at) × ((to ≡ 0) ⊎ (sale.created_at < to))

module _ {B : Bolt} (L : IsLawful B) (from to : Time) (db : Db B) where
  -- The export of sales holds exactly the sales of the shop in the range, oldest first: a sale is in it
  -- if and only if it is stored and was made not before the start and, where there is an end, before it.
  pub ledger-exact :
      (sale : Sale)
      → (In sale (ledger from to db)
          ↔ (((k : Text) × (B.get Sale db.sales k ≡ some sale)) × InRange from to sale))
        × IsAscending created (ledger from to db)
  unfolding ledger sales_since
  ledger-exact sale =
      let stored = values (B.entries Sale db.sales) in
      let since = λ (s : Sale). not (before s.created_at from) in
      let until = λ (s : Sale). is_zero to || before s.created_at to in
      let late = keep_if since stored in
      let early = sort (later created) late in
      let (out, into) = In-sort (earlier created) sale (keep_if until early) in
      let (kept, keep) = In-keep_if until sale early in
      let (out', into') = In-sort (later created) sale late in
      let (kept', keep') = In-keep_if since sale stored in
      let (value, key) = In-values sale (B.entries Sale db.sales) in
      (
        (
          λ h.
              let (h1, before_end) = kept (out h) in
              let (h2, after_start) = kept' (out' h1) in
              let (k, h3) = value h2 in
              ((k, L.get_of_In Sale db.sales k sale h3), (ground arith, ground arith)),
          λ ((k, found), (after_start, before_end)). into (
              keep (
                into' (keep' (key (k, L.In_of_get Sale db.sales k sale found), ground arith)),
                ground arith,
              )),
        ),
        sort-IsAscending created (keep_if until early),
      )
