-- ===== src/Std/Http/Laws.antt =====
-- Laws of the headers.
use blockade.Prelude.{if◌then◌else◌, Bytes, String, ◌≡◌, refl, [], ◌∷◌, ◌++◌, arith}
use text.Mathlib.Text.{◌==◌ as str_eq}
use text.Mathlib.TextEquality.{eq_iff as str_eq_iff}
use blockade.Std.Http.{Header, get, values, del, set}

pub values-append : (n : String) (h k : Header) → values n (h ++ k) ≡ values n h ++ values n k
unfolding values
values-append n [] k = refl
values-append n ((m, v) ∷ h) k = ground (arith, values-append n h k)

pub values-del :
    (m n : String) (h : Header) → values n (del m h) ≡ (if str_eq m n then [] else values n h)
unfolding values del
values-del m n [] = ground arith
values-del m n ((i, v) ∷ h) =
    ground (arith, values-del m n h, str_eq_iff m n, str_eq_iff i m, str_eq_iff i n)

-- A `Set` leaves its value as the only one of its name, and the other names alone.
pub values-set :
    (m n : String) (v : Bytes) (h : Header)
    → values n (set m v h) ≡ (if str_eq m n then v ∷ [] else values n h)
unfolding values set
values-set m n v h = ground (arith, values-del m n h)

pub get-set :
    (m n : String) (v : Bytes) (h : Header)
    → get n (set m v h) ≡ (if str_eq m n then v else get n (del m h))
unfolding get set
get-set m n v h = ground arith

pub get-del : (m n : String) (h : Header) → get n (del m h) ≡ (if str_eq m n then [] else get n h)
unfolding get del
get-del m n [] = ground arith
get-del m n ((i, v) ∷ h) =
    ground (arith, get-del m n h, str_eq_iff m n, str_eq_iff i m, str_eq_iff i n)

pub ruleset header_laws = (values-append, values-del, values-set, get-del)
