-- ===== src/Csc.antt =====
-- csc/cmd: the command line client's flags and its interceptors.
pub mod VarTypes
pub mod Interceptors
pub mod Commands
pub mod Root
