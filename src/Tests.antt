-- ===== src/Tests.antt =====
-- Runs of the definitions on concrete inputs, and the theorems at inputs that meet their hypotheses.
mod ExtraFunc
mod Parser
mod Ipv4
mod Ipv6
mod Uri
mod Rules
