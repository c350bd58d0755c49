-- ===== src/Lib.antt =====
-- The offline point-of-sale agent: its local store, the tax of a sale, the synchronisation of the store
-- with a cloud shop, the receipts, and the web API that drives all of these.
--
-- The till sells from a local bbolt database (internal/store/boltstore). Each operation is one
-- transaction. Products carry a barcode index and sales a reference index; stock is not a number in
-- the product but the sum of stock events less what was sold. Every write that other devices must see
-- marks its record as pending. The sync engine (internal/cloudsync) pushes what is pending, clears
-- the marks, pulls the changes past its cursor and merges them. The handlers of internal/web read a
-- request, call the store, ask the controller of internal/cloudsync for a sync after a change, and print
-- a receipt by internal/printer.
--
-- Which file models what:
-- - Domain.antt, Domain/Keys.antt: the types and constants of internal/store/store.go.
-- - Tax.antt: ComputeTax and roundHalfUp of internal/store/tax.go.
-- - Bolt.antt: the interface of go.etcd.io/bbolt, which is a parameter of everything below, with the
--   laws that the code relies on; Bolt/Memory.antt: a list of pairs that meets them.
-- - Boltstore/Db.antt: the buckets, the errors and the results of a transaction.
-- - Boltstore/Products.antt, Sales.antt, Settings.antt, Audit.antt, Stock.antt, Search.antt,
--   Analytics.antt: the operations of boltstore.go, audit.go, stock.go and search.go. A Go method `CreateSale` is the
--   function `create_sale`, which takes the database last and returns it with the result, or an
--   error. `Restock` is `restock_product`. Clock readings and UUIDs are arguments.
-- - Boltstore/Outbox.antt, Boltstore/Pull.antt: sync.go.
-- - Cloudsync/Engine.antt: engine.go. The transport is a record of two functions. What the till does
--   to the database while a request is in flight is an argument.
-- - Web/Export/Tables.antt: the tables and the CSV of export.go. Web/Export.antt: xmlEscape, colName and
--   isNumeric of internal/web/xlsx.go and csvSafe of export.go; Web/Export/Xlsx.antt: the parts that
--   writeXLSX packs; Web/Export/Pdf.antt: fitWidths, lineLen, formatRow, cellFit and pdfString of
--   internal/web/pdfdoc.go, whose loop has the length of a row as fuel: a row loses a byte a round;
--   Web/Export/Pdf/Document.antt: writePDF and assemblePDF, on fuel for the pages, one for each line, which
--   is enough since a page takes a line at least;
--   the loop of colName runs on fuel, one more than the column, which is enough as the
--   column shrinks in every round.
-- - Printer/Layout.antt, Printer/Receipt.antt: internal/printer/receipt.go; Printer/Escpos.antt: printer.go;
--   Printer/Logo.antt: logo.go. The loop of groupThousands runs on the length of the text as fuel, and
--   three bytes go in every round.
-- - Printer/Fakeprinter.antt: textPreview, skipGS and features of cmd/fakeprinter/main.go; the scan runs on
--   the length of the job as fuel, and every round passes a byte.
-- - Web/Server.antt and its folder: internal/web/server.go and search.go. A handler is a function of the
--   decoded request and the world (the database, the count of sync requests, the jobs sent to printers)
--   that returns the answer and the world; Web/Server/Routes.antt is the mux.
-- - Web/Server/SyncApi.antt: internal/web/sync.go, over the controller instead of that world;
--   Web/Server/History.antt runs both side by side over one database.
-- - Scan.antt: localHosts, the merging of answers and Addr of internal/scan/scan.go.
-- - Cloudsync/Client.antt: client.go; Cloudsync/Controller.antt: controller.go, whose loop `Run` is the step
--   relation of Cloudsync/Controller/Loop.antt.
-- The theorems on a component stand in the files of the folder named after it.
--
-- Integers: int64 and int are the integers of Base/Int with their wrap-around written out. The agent is
-- built for windows/386 (Makefile), so int has 32 bits; int64 has 64. Other loops are structural
-- recursion on lists. The search limit is 500 where none is given, as in the code.
--
-- Not modelled: JSON encoding (a bucket holds the record itself, a request is what it decodes to),
-- failures of the disk and bbolt's limits on the size of a key or a value (a write always succeeds), what
-- another sync does between a sync and the reading of its status or between the reads of a push (both are
-- one step), Atoi's value for digits past 32 bits with another byte behind them, the texts of
-- times in the sync bucket (a time is its number of nanoseconds),
-- letter cases beyond the parameter of the search, net/http and the TCP connections, the image
-- decoders, the dialling of hosts, the ZIP archive around the
-- parts of a spreadsheet, and the start-up of the commands.
pub mod Base
pub mod Bolt
pub mod Domain
pub mod Tax
pub mod Boltstore
pub mod Cloudsync
pub mod Printer
pub mod Scan
pub mod Web
