-- ===== src/Cloudflare.antt =====
-- plugins/cloudflare-provider: the listings of the provider and how it hands them out in pages.
pub mod Collect
pub mod Listing
mod Tests
