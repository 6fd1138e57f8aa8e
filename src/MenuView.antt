-- ===== src/MenuView.antt =====
-- backend/internal/domain/menuview: the views of a menu bank.
pub mod Types
pub mod Rule
pub mod Bank
pub mod View
pub mod Compiler
pub mod Compile
pub mod Entries
pub mod Build
pub mod Shelves
pub mod Grouped
pub mod Shown
pub mod Placed
pub mod Compiled
pub mod Source
pub mod Arranged
mod Examples
mod BankExamples
