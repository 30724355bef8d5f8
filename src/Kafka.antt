-- ===== src/Kafka.antt =====
-- pkg/kafka.
pub mod TraceHeaders
pub mod Consumer
pub mod Carrier
pub mod Retrying
pub mod Bounded
pub mod Producer
pub mod Producing
pub mod Keeping
pub mod Looping
pub mod Examples
mod LoopExamples
