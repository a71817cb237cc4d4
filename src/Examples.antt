-- ===== src/Examples.antt =====
-- Tests and instances of the theorems at concrete inputs.
mod Sample
mod Memories
mod Numbers
mod Runs
mod Delayed
mod Blocks
mod Cached
mod Loading
mod Heaps
mod Programs
mod Exits
mod Listings
mod Calls
mod Words
