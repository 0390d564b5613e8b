-- ===== src/Calendar.antt =====
-- app/calendar: the search for a slot that suits every participant.
pub mod Intersection
pub mod Google
