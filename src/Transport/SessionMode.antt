-- ===== src/Transport/SessionMode.antt =====
-- matter/src/transport/session.rs: `SessionMode`.
use matter_rs.Base.{ℕ, ◌≡◌, refl, Bool, true, false, ◌==◌, arith}

-- A CASE session has the index of the local fabric.
pub data SessionMode : Type 0 where
  case_mode : ℕ → SessionMode
  pase : SessionMode
  plain_text : SessionMode

-- The derived `PartialEq`.
abbrev pub mode_eq : SessionMode → SessionMode → Bool
mode_eq (case_mode a) (case_mode b) = a == b
mode_eq (case_mode a) pase = false
mode_eq (case_mode a) plain_text = false
mode_eq pase (case_mode b) = false
mode_eq pase pase = true
mode_eq pase plain_text = false
mode_eq plain_text (case_mode b) = false
mode_eq plain_text pase = false
mode_eq plain_text plain_text = true

pub mode_eq→eq : (a b : SessionMode) → mode_eq a b ≡ true → a ≡ b
mode_eq→eq (case_mode a) (case_mode b) h = ground arith
mode_eq→eq (case_mode a) pase h = cc
mode_eq→eq (case_mode a) plain_text h = cc
mode_eq→eq pase (case_mode b) h = cc
mode_eq→eq pase pase h = refl
mode_eq→eq pase plain_text h = cc
mode_eq→eq plain_text (case_mode b) h = cc
mode_eq→eq plain_text pase h = cc
mode_eq→eq plain_text plain_text h = refl

pub mode_eq_refl : (a : SessionMode) → mode_eq a a ≡ true
mode_eq_refl (case_mode a) = ground arith
mode_eq_refl pase = refl
mode_eq_refl plain_text = refl
