-- ===== src/Devices.antt =====
-- devices.cpp and devices.h: the buffer that cuts a byte stream into HID reports and back, and the
-- channel that sends and reads messages over it.
pub mod State
pub mod Buffer
pub mod Channel
