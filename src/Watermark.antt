-- ===== src/Watermark.antt =====
-- contracts/runtime.py, the positions of a watermark, and capture/watermark.py, the batch between the
-- committed position and the next one.
pub mod Position
pub mod Capture
pub mod Comparing
pub mod Order
pub mod Sorting
pub mod Batch
pub mod Selection
pub mod Following
pub mod Planned
pub mod Checked
pub mod Results
