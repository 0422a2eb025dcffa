-- ===== src/ImageCrop.antt =====
-- The dialog that crops an image: web/frontend/src/component/ImageCropDialog.
pub mod Numbers
pub mod Geometry
pub mod Bounds
pub mod Placing
pub mod Clamp
pub mod Selection
pub mod Kept
pub mod Rounding
pub mod OutputSize
pub mod Scale
pub mod Resolved
pub mod Both
pub mod Measured
pub mod Computed
pub mod Dialog
pub mod Saving
pub mod Urls
pub mod Outcomes
mod Examples
mod SizeExamples
