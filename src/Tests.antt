-- ===== src/Tests.antt =====
-- Tests of the definitions and instances of the theorems, a module for each part.
mod Backup
mod Bgwork
mod Dedup
mod Messages
mod Summary
mod Portability
mod Shape
mod TailHealth
mod TokenHealth
mod Degrade
mod Facts
mod Tail
