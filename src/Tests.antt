-- ===== src/Tests.antt =====
-- Runs of the model on concrete packets, and each theorem that has conditions at values that satisfy them.
pub mod Packets
pub mod Wire
pub mod Connection
pub mod Answering
pub mod Closing
pub mod Notification
pub mod Extended
pub mod Startup
pub mod Fields
pub mod Sequences
