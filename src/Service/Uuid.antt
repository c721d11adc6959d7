-- ===== src/Service/Uuid.antt =====
-- `generateUUID` of src/service/UserService.cpp.
use Prim.Native.Nat.{◌/◌, ◌%◌, bit_and, bit_or}
use user_center.Base.{ℕ, zero, suc, ◌+◌, [], ◌∷◌, ◌++◌, ◌||◌, Bytes, if◌then◌else◌, ◌==◌}
use user_center.World.{Env, M, ◌>>=◌, pure}
use user_center.Auth.{hex_digit, random_buffer}

-- `uuid[i] = f(uuid[i])`
unfoldable pub update_at : ℕ → (ℕ → ℕ) → Bytes → Bytes
update_at i f [] = []
update_at zero f (c ∷ s) = f c ∷ s
update_at (suc i) f (c ∷ s) = c ∷ update_at i f s

-- Version 4 in the seventh byte, and the variant bits 10 in the ninth.
unfoldable pub mark_version : Bytes → Bytes
unfolding update_at
mark_version bytes =
    update_at 8 (λ c. bit_or (bit_and c 0x3f) 0x80)
      (update_at 6 (λ c. bit_or (bit_and c 0x0f) 0x40) bytes)

abbrev pub dash_after : ℕ → Bytes
dash_after i = if i == 3 || i == 5 || i == 7 || i == 9 then b'-' ∷ [] else []

-- The loop from the index `i` on.
unfoldable pub format_from : ℕ → Bytes → Bytes
unfolding hex_digit
format_from i [] = []
format_from i (c ∷ s) =
    hex_digit (c / 16) ∷ hex_digit (c % 16) ∷ (dash_after i ++ format_from (i + 1) s)

unfoldable pub uuid_text : Bytes → Bytes
unfolding mark_version format_from
uuid_text bytes = format_from 0 (mark_version bytes)

unfoldable pub generate_uuid : (env : Env) → M (env.World) Bytes
unfolding random_buffer uuid_text
generate_uuid env = do bytes ← random_buffer env 16; pure (uuid_text bytes)
