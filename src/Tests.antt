-- ===== src/Tests.antt =====
-- Runs of the modelled code on concrete states.
mod BuddyRuns
mod TrackerRuns
mod BitmapRuns
mod SlabRuns
mod StackRuns
mod PagingRuns
mod TableRuns
mod ManagerRuns
mod Packing
mod IoApicRuns
mod InterruptRuns
mod HpetRuns
mod LapicRuns
mod HypervisorRuns
