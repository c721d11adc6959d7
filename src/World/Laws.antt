-- ===== src/World/Laws.antt =====
-- How a computation that returned came to do so: the inversion of a bind and of a `try`.
use user_center.Base.{◌≡◌, refl}
use user_center.World.{Result, ok, throw, M, ◌>>=◌, after_ok}

after_ok-eq-ok :
    {W A B : Type 0} (r : Result A × W) (f : A → M W B) {b : B} {w' : W}
    → after_ok r f ≡ (ok b, w')
    → (a : A) × (v : W) × (r ≡ (ok a, v)) × (f a v ≡ (ok b, w'))
after_ok-eq-ok (ok a, v) f e = (a, v, refl, e)
after_ok-eq-ok (throw x, v) f e = cc

-- A bind that returned: the first part returned, and then the second.
pub >>=-eq-ok :
    {W A B : Type 0} (m : M W A) (f : A → M W B) (w : W) {b : B} {w' : W}
    → (m >>= f) w ≡ (ok b, w')
    → (a : A) × (v : W) × (m w ≡ (ok a, v)) × (f a v ≡ (ok b, w'))
>>=-eq-ok m f w e = after_ok-eq-ok (m w) f e
