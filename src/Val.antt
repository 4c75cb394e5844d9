-- ===== src/Val.antt =====
-- val/validation.go.  `mail.ParseAddress` of Go's library is a parameter.
pub mod Validation
