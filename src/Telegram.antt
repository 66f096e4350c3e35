-- ===== src/Telegram.antt =====
-- What stands between the bot and Telegram: the retries of calls, and the data of buttons.
pub mod Retry
pub mod Actions
