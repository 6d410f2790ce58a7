-- ===== src/Policies.antt =====
-- The small decisions that the runtime asks for, each in a child: the labels of the server's
-- environment, the timeouts of the screens, the state of the network, the level of free memory, the
-- names and addresses of the setup.
pub mod Environment
pub mod Timeouts
pub mod NetworkState
pub mod Memory
pub mod Setup
