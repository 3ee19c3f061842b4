-- ===== src/Configuration.antt =====
-- The configurations of the simulator, src/utils/config_utils.h and src/utils/config_utils.cpp.
pub mod Numbers
pub mod State
pub mod Validation
pub mod Comparison
pub mod Quick
pub mod Building
pub mod Sweep
pub mod Changes
pub mod Fitting
pub mod Setting
pub mod Sweeping
pub mod CommandLine
