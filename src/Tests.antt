-- ===== src/Tests.antt =====
-- The theorems at inputs that meet their hypotheses, and runs of the definitions.
mod Signature
mod BindingTool
mod Utils
mod Sort
mod Parser
mod Object
mod Idl
mod Proxy
mod ProxyManager
