-- ===== src/Samples.antt =====
-- Small inputs, on which the properties of the other modules are applied.
mod Calendars
mod Cups
mod Tables
mod Rooms
mod Market
