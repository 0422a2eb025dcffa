-- ===== src/Widgets.antt =====
-- Small parts that pages share: the state of an image, the sentinel at the end of a list, the
-- direction of scrolling, and a click outside of an element.
pub mod Image
pub mod Sentinel
pub mod Scrolling
mod Examples
