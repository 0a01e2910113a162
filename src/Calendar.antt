-- ===== src/Calendar.antt =====
-- Calendars: internal/calendar.
pub mod Window
mod Tests
