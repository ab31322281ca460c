-- ===== src/Controller.antt =====
-- internal/controller: the decision engine and the control loop around it.
pub mod State
pub mod Policy
pub mod Inputs
pub mod Recorder
pub mod Loop
pub mod Settings
pub mod System
pub mod Examples
pub mod Memory
