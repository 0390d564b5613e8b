-- ===== src/Services/Meetings.antt =====
-- app/services/meeting_service.py: proposing, booking and cancelling a meeting.
-- `perform` of a calendar effect is the CalendarProvider's call (app/calendar/provider.py).
pub mod Propose
pub mod Proposal
pub mod Roster
pub mod Booking
