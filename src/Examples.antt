-- ===== src/Examples.antt =====
-- A small concrete node, on which the theorems of the other modules are tried.
pub mod World
mod PortTests
mod ContainerTests
mod RentalTests
mod ThreadsTests
mod MiningTests
mod NodeTests
mod FilesTests
mod StartupTests
mod HubTests
mod ApiTests
mod MtlsTests
mod AuthTests
mod CmdTests
mod GpuTests
