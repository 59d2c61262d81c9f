-- ===== src/Capture.antt =====
-- internal/capture: the entries, the ring buffer that stores them, and the recorder.
pub mod Entry
pub mod Ids
pub mod Apart
pub mod Filter
pub mod Streams
pub mod Recorder
pub mod Media
pub mod Ring
pub mod Subscribers
