-- ===== src/Plugin.antt =====
-- plugin.cpp and plugin.h: the plugin object, its communicators and their jobs.
pub mod Site
pub mod Enumerate
pub mod Configure
pub mod Communicators
pub mod Executor
pub mod Worker
pub mod Lifecycle
pub mod Factory
