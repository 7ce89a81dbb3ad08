-- ===== src/Rules.antt =====
-- cpp-backend/include/events/rule_engine.h, cpp-backend/src/events/rule_engine.cpp: the composite
-- rule engine.
--
-- One call of evaluateEvent reads the system clock several times; the model gives all its reads one
-- value, `now`. std::localtime is a parameter, from a time point to the hour and the day of the week
-- (tm_hour, tm_wday). The mutexes make each call one step. JSON and the database are not modelled.
pub mod Model
pub mod Store
pub mod Conditions
pub mod Noise
pub mod Evaluate
pub mod Names
mod Tests
