-- ===== src/Examples.antt =====
-- The theorems at concrete inputs, by part of the program.
mod Bits
mod Fields
mod Sessions
mod Messages
mod Properties
mod Serializers
mod Jsons
