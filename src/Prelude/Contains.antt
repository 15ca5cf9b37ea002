-- ===== src/Prelude/Contains.antt =====
-- A text contains each text that it starts with.
use Prim.Native.Char.{Char, code, len_utf8}
use Prim.Native.Nat.{ℕ, compare, Ordering, ◌+◌}
use Prim.Native.String.find
use Prim.Native.String.{String, ◌++◌ as str_append, find, begins}
use text.Mathlib.Text.{is_le, when}
use text.Mathlib.TextLemmas.{cons-append}
use mathlib.Core.Path.{◌≡◌, refl, sym, ap, ◌∙◌}
use mathlib.Core.Bool.{true}
use native.Mathlib.Omega.{arith}
use py_faa_s.Prelude.Tests.{contains_text, is_some}

compare_self : (n : ℕ) → compare n n ≡ Ordering.eq
compare_self n = ground arith

begins-append : (s t : String) (y n : ℕ) → begins (str_append s t) s y n ≡ y
begins-append String.[] t y n = refl
begins-append (String.◌∷◌ c s) t y n =
    rw (cons-append c s t, compare_self (code c)) (begins-append s t y n)

within : (k : ℕ) (n : ℕ) → k ≡ 0 → is_some (when (is_le (compare k n)) k) ≡ true
within k n h = ground arith

find-append : (c : Char) (s t : String) → find (str_append (String.◌∷◌ c s) t) (String.◌∷◌ c s) ≡ 0
find-append c s t =
    ap (λ u. find u (String.◌∷◌ c s)) (cons-append c s t)
    ∙ find.cons c (str_append s t) (String.◌∷◌ c s)
    ∙ ap (λ u. begins u (String.◌∷◌ c s) 0 (len_utf8 c + find (str_append s t) (String.◌∷◌ c s)))
        (sym (cons-append c s t))
    ∙ begins-append (String.◌∷◌ c s) t 0 _

pub contains_text-append :
    (c : Char) (s t : String)
    → contains_text (String.◌∷◌ c s) (str_append (String.◌∷◌ c s) t) ≡ true
contains_text-append c s t = within _ _ (find-append c s t)
