-- ===== src/Speed.antt =====
-- The speed test of webClient/frontend/src/components/SpeedTest.tsx: pings, then streams that
-- download and streams that upload in parallel, and what is left of them in the component's state.
-- What happens to the streams is a list of events in the order in which they come. Times are
-- milliseconds since the start of a phase, and those of the pings microseconds.
pub mod State
pub mod Pings
pub mod Streams
pub mod Run
pub mod Laws
pub mod Counted
pub mod Outcome
pub mod View
pub mod Setup
