-- ===== src/Sysfile.antt =====
-- sysfile.c: the system calls on files. The arguments come as what argfd, argint, argptr and argstr
-- fetched, `none` where they return -1; a result of `none` is -1.
pub mod State
pub mod Descriptors
pub mod Names
pub mod Links
pub mod Balance
pub mod Counts
pub mod Chains
pub mod LinkText
pub mod Calls
mod Tests
