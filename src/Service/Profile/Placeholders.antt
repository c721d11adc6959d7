-- ===== src/Service/Profile/Placeholders.antt =====
-- updateProfile of src/service/UserService.cpp: the places of the statement and what is bound to them.
use user_center.Base.{ℕ, suc, [], ◌∷◌, Bytes, ◌==◌, if◌then◌else◌}

-- The places of a statement.
abbrev pub places : Bytes → ℕ
places [] = 0
places (c ∷ s) = let rest = places s in if c == b'?' then suc rest else rest
