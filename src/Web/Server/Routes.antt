-- ===== src/Web/Server/Routes.antt =====
-- internal/web/server.go, `New`: the till's own routes, each with its handler and the body or query it
-- decodes. The sync endpoints, which write the link, the sync state and what they pull, are in
-- SyncApi; the network search, the configuration and the exports, which change nothing, are not here.
use pos_agent.Base.{Option, Text}
use pos_agent.Bolt.{Bolt}
use pos_agent.Web.Server.{Method, World, Answer, Outside}
use pos_agent.Web.Server.Catalogue.{
  Fields, RestockForm, handle_products, handle_product_update, handle_product_delete,
  handle_product_restock,
}
use pos_agent.Web.Server.SettingsForm.{Form, handle_settings, handle_logo, handle_logo_delete}
use pos_agent.Web.Server.Printing.{
  ReceiptOverrides, handle_test_print, handle_receipt_preview, handle_receipt_test,
}
use pos_agent.Web.Server.Selling.{
  SaleForm, SearchRequest, handle_sales, handle_sales_today, handle_analytics, handle_reprint,
  handle_sales_search,
}

pub data Request : Type 0 where
  test_print : Method → Option Text → Request
  receipt_preview : ReceiptOverrides → Request
  receipt_test : Method → Text → Request
  logo : Method → Text → Request
  logo_delete : Method → Request
  products : Method → Option Fields → Request
  product_update : Method → Option Fields → Request
  product_delete : Method → Option Text → Request
  product_restock : Method → Option RestockForm → Request
  settings : Method → Option Form → Request
  sales : Method → Option SaleForm → Request
  sales_today : Request
  sales_search : Method → Option SearchRequest → Request
  analytics : Request
  reprint : Method → Option Text → Request

unfoldable pub serve : {B : Bolt} → Outside → Request → World B → Answer B
unfolding handle_test_print handle_receipt_preview handle_receipt_test handle_logo
    handle_logo_delete handle_products handle_product_update handle_product_delete
    handle_product_restock handle_settings handle_sales handle_sales_today handle_sales_search
    handle_analytics handle_reprint
serve o (test_print m body) = handle_test_print o m body
serve o (receipt_preview query) = handle_receipt_preview o query
serve o (receipt_test m theme) = handle_receipt_test o m theme
serve o (logo m body) = handle_logo o m body
serve o (logo_delete m) = handle_logo_delete m
serve o (products m body) = handle_products o m body
serve o (product_update m body) = handle_product_update o m body
serve o (product_delete m body) = handle_product_delete o m body
serve o (product_restock m body) = handle_product_restock o m body
serve o (settings m body) = handle_settings o m body
serve o (sales m body) = handle_sales o m body
serve o sales_today = handle_sales_today o
serve o (sales_search m body) = handle_sales_search o m body
serve o analytics = handle_analytics o
serve o (reprint m body) = handle_reprint o m body
