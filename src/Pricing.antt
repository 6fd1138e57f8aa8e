-- ===== src/Pricing.antt =====
-- backend/internal/domain/pricing: the pricing engine.
pub mod Types
pub mod Live
pub mod Item
pub mod Lines
pub mod Deals
pub mod Charges
pub mod Quote
pub mod Rounding
pub mod Capped
pub mod Totals
pub mod Frame
pub mod Balance
pub mod Spread
pub mod Choice
pub mod Window
pub mod SameLines
pub mod Matched
pub mod Clean
mod Examples
pub mod Settings
pub mod DealRules
pub mod Ranges
pub mod Passed
pub mod Amounts
pub mod Nonneg
pub mod Taken
