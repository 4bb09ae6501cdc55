-- ===== src/Samples.antt =====
-- Concrete stand-ins for what the program takes from outside: names as lists of labels, and a
-- network of two nameservers.
pub mod Domains
pub mod Network
pub mod Aliases
pub mod Hosts
pub mod Models
