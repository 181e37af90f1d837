-- ===== src/Policy.antt =====
-- What the change broker is willing to do and how it asks: src/changes/policy.js.
pub mod Texts
pub mod Scripts
pub mod Paths
pub mod Proposals
pub mod Probes
pub mod Allowed
pub mod Redaction
pub mod Parts
pub mod Contained
pub mod Bounds
pub mod Classify
pub mod Lines
pub mod Safe
pub mod CurlWords
pub mod CurlArgs
pub mod Curl
mod Examples
pub mod Reported
