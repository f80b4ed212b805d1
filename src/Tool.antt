-- ===== src/Tool.antt =====
-- The static functions of class Tool (src/tool.cpp), by what they are about.
pub mod Ip4
pub mod FromJson
pub mod Names
pub mod Secrets
pub mod Rotate
pub mod Dhcp
