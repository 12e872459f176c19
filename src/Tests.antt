-- ===== src/Tests.antt =====
-- Runs of the code at concrete inputs, and the theorems at inputs where their hypotheses hold.
mod Layers
mod Buckets
mod Stores
mod Rings
mod Flights
mod LruCaches
mod Servers
mod Mains
mod Goroutines
