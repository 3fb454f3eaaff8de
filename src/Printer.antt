-- ===== src/Printer.antt =====
-- pkg/helpers/printer: the tree printer with its trie of keys.
pub mod Trie
pub mod TreePrinter
pub mod PrinterOption
mod Tests
