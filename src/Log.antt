-- ===== src/Log.antt =====
-- sylar/log.h, sylar/log.cpp: levels, the patterns of formatters, appenders, loggers and their
-- configuration, one child for each.
pub mod Levels
pub mod Pattern
pub mod Ends
pub mod RoundTrip
pub mod Loggers
pub mod Delivery
pub mod Manager
pub mod Macros
pub mod Defines
pub mod Casts
pub mod Fields
pub mod Trips
mod Tests
