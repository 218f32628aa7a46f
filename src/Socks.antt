-- ===== src/Socks.antt =====
-- src/socks.c: the handlers of the states, and `socks5`, which picks one for an event. The three
-- longest handlers stand in the children Handshake, Request and Remote.
pub mod Reply
pub mod Handshake
pub mod Request
pub mod Remote
pub mod Established
pub mod Dispatch
pub mod Methods
pub mod Greeting
pub mod Negotiated
pub mod Errors
pub mod Transitions
pub mod Blocked
pub mod Runs
pub mod Defined
pub mod Total
