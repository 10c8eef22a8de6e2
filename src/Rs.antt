-- ===== src/Rs.antt =====
-- src/arq/resequencing_buffers: the packets that are received and not yet given out.
pub mod Buffer
pub mod SelectiveRepeat
pub mod GoBackN
pub mod StopAndWait
pub mod DummySctp
pub mod Instances
pub mod Origin
pub mod Serial
pub mod Returns
