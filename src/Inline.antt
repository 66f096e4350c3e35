-- ===== src/Inline.antt =====
-- Inline delivery as services/telegram_bot.py runs it, over the tables of StateStore.
pub mod Access
pub mod Bot
pub mod Answers
pub mod Taps
pub mod Refunds
pub mod Checkout
pub mod Failure
pub mod Delivery
pub mod Quiet
pub mod Steps
pub mod Tests
