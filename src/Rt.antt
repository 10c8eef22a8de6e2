-- ===== src/Rt.antt =====
-- src/arq/retransmission_buffers: the packets that are sent and not acknowledged.
pub mod Slots
pub mod GoBackN
pub mod SelectiveRepeat
pub mod StopAndWait
pub mod DummySctp
pub mod Buffer
pub mod Instances
pub mod Origin
pub mod Serial
pub mod WindowOfOne
