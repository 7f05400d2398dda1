-- ===== src/Issuing.antt =====
-- What the issuer of a contract may do to it: its assets, its limit on them, and its revision.
pub mod Limits
pub mod Revisions
