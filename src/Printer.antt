-- ===== src/Printer.antt =====
-- internal/printer: the layout of receipts and the bytes for an ESC/POS printer.
pub mod Layout
pub mod Escpos
pub mod Receipt
pub mod Logo
pub mod Fakeprinter
pub mod Rows
pub mod Printed
mod Tests
