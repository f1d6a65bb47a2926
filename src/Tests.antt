-- ===== src/Tests.antt =====
-- Runs at concrete inputs, and the theorems applied at inputs that meet their hypotheses.
mod ReverseTests
mod TagsTests
mod PluginsTests
mod ReceiverTests
mod StatsdTests
mod Samples
mod ManagerTests
mod ServerTests
mod ProcfsTests
mod CheckTests
