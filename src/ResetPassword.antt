-- ===== src/ResetPassword.antt =====
-- The reset of a forgotten password: web/frontend/src/view/auth/reset_password. A child for each
-- source file that keeps state or reads a reply, and the flows of index.tsx over them in Page.
pub mod Session
pub mod Response
pub mod UiStore
pub mod Page
pub mod Flows
pub mod Storage
pub mod Outcomes
pub mod Countdown
mod Examples
