-- ===== src/Tests.antt =====
-- Runs of the modelled code at concrete inputs, and the theorems at inputs that meet their
-- hypotheses.
mod Ipam
mod OpenFlow
mod Match
mod Session
mod Router
mod Sdwan
mod Links
mod Control
mod Owner
mod Intent
