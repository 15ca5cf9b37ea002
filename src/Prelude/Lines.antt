-- ===== src/Prelude/Lines.antt =====
-- Python's `str.splitlines` and `text[n:]` on native texts.
use Prim.Native.Char.{Char, code}
use Prim.Native.Nat.{ℕ, zero, suc, ◌+◌}
use Prim.Native.String.{String, ◌++◌ as str_append}
use text.Mathlib.TextLemmas.{nil-append, cons-append, append_assoc}
use mathlib.Core.Path.{◌≡◌, refl, sym, ap, ◌∙◌}
use mathlib.Core.Logic.{inl, inr}
use mathlib.Core.Bool.{Bool, true, false, ◌&&◌, ◌||◌}
use mathlib.Core.List.{List, [], ◌∷◌, ◌++◌}
use native.Mathlib.Omega.{arith}
use py_faa_s.Prelude.Tests.{leb, ◌==◌, if◌then◌else◌, Bool-cases}

-- The characters at which `splitlines` breaks a text.
abbrev pub is_break : Char → Bool
is_break c =
    (leb 10 (code c) && leb (code c) 13)
    || (leb 28 (code c) && leb (code c) 30)
    || code c == 133
    || code c == 8232
    || code c == 8233

abbrev pub starts_feed : String → Bool
starts_feed String.[] = false
starts_feed (String.◌∷◌ c s) = code c == 10

-- `c` in front of the first line.
abbrev pub push : Char → List String → List String
push c [] = String.◌∷◌ c String.[] ∷ []
push c (l ∷ ls) = String.◌∷◌ c l ∷ ls

-- A carriage return before a line feed is part of one break.
unfoldable pub break_at : Char → Bool → List String → List String
break_at c feed_next rest =
    if code c == 13 && feed_next then rest else if is_break c then String.[] ∷ rest else push c rest

unfoldable pub splitlines : String → List String
unfolding break_at
splitlines String.[] = []
splitlines (String.◌∷◌ c s) = break_at c (starts_feed s) (splitlines s)

-- `text[n:]`
abbrev pub text_drop : ℕ → String → String
text_drop zero s = s
text_drop (suc n) String.[] = String.[]
text_drop (suc n) (String.◌∷◌ c s) = text_drop n s

abbrev pub AllChars : (Char → Type 0) → String → Type 0
AllChars P String.[] = Unit
AllChars P (String.◌∷◌ c s) = P c × AllChars P s

-- A text without line breaks.
abbrev pub IsLine : String → Type 0
IsLine = AllChars (λ c. is_break c ≡ false)

-- The text ends with a line feed, or is empty.
abbrev pub ends_line : String → Bool
ends_line String.[] = true
ends_line (String.◌∷◌ c String.[]) = code c == 10
ends_line (String.◌∷◌ c (String.◌∷◌ d s)) = ends_line (String.◌∷◌ d s)

abbrev pub feed : String
feed = "\n"

break_at-inside :
    (c : Char) (b : Bool) (l : String) (ls : List String)
    → is_break c ≡ false
    → break_at c b (l ∷ ls) ≡ String.◌∷◌ c l ∷ ls
unfolding break_at
break_at-inside c b l ls h = ground (arith, h)

feed-append : (s : String) → str_append feed s ≡ String.◌∷◌ "\n" s
feed-append s = cons-append "\n" String.[] s ∙ ap (String.◌∷◌ "\n") (nil-append s)

-- A line with its feed comes first.
pub splitlines-line :
    (l s : String) → IsLine l → splitlines (str_append l (str_append feed s)) ≡ l ∷ splitlines s
unfolding splitlines
splitlines-line String.[] s h = rw (nil-append (str_append feed s), feed-append s) refl
splitlines-line (String.◌∷◌ c l) s h =
    rw (cons-append c l (str_append feed s), splitlines-line l s h.1)
      (break_at-inside c (starts_feed (str_append l (str_append feed s))) l (splitlines s) h.0)

break_at-append :
    (c : Char) (b : Bool) (l : String) (ls ms : List String)
    → break_at c b (l ∷ ls) ++ ms ≡ break_at c b (l ∷ ls ++ ms)
unfolding break_at
break_at-append c b l ls ms = ground arith

break_at_cons :
    (c : Char) (b : Bool) (l : String) (ls : List String)
    → (m : String) × (ms : List String) × (break_at c b (l ∷ ls) ≡ m ∷ ms)
unfolding break_at
break_at_cons c b l ls = elim (Bool-cases (code c == 13 && b)) [
  | inl joined ↦ (l, ls, ground (arith, joined))
  | inr alone ↦ elim (Bool-cases (is_break c)) [
    | inl breaks ↦ (String.[], l ∷ ls, ground (arith, alone, breaks))
    | inr inside ↦ (String.◌∷◌ c l, ls, ground (arith, alone, inside))
  ]
]

-- A text that is not empty has a line.
splitlines_cons :
    (c : Char) (s : String)
    → (l : String) × (ls : List String) × (splitlines (String.◌∷◌ c s) ≡ l ∷ ls)
unfolding splitlines
splitlines_cons c String.[] = elim (Bool-cases (is_break c)) [
  | inl breaks ↦ (String.[], [], ground (arith, breaks))
  | inr inside ↦ (String.◌∷◌ c String.[], [], ground (arith, inside))
]
splitlines_cons c (String.◌∷◌ d s) =
    let (l, ls, first) = splitlines_cons d s in
    let (m, ms, whole) = break_at_cons c (starts_feed (String.◌∷◌ d s)) l ls in
    (m, ms, rw first whole)

-- After a line feed the lines start anew.
pub splitlines-append :
    (s t : String) → ends_line s ≡ true → splitlines (str_append s t) ≡ splitlines s ++ splitlines t
unfolding splitlines
splitlines-append String.[] t h = rw (nil-append t) refl
splitlines-append (String.◌∷◌ c String.[]) t h =
    rw (cons-append c String.[] t, nil-append t) (ground (arith, h))
splitlines-append (String.◌∷◌ c (String.◌∷◌ d s)) t h =
    let (l, ls, first) = splitlines_cons d s in
    rw
      (
        cons-append c (String.◌∷◌ d s) t,
        splitlines-append (String.◌∷◌ d s) t h,
        first,
        cons-append d s t,
      )
      (sym (break_at-append c (starts_feed (String.◌∷◌ d s)) l ls (splitlines t)))

abbrev pub characters : String → ℕ
characters String.[] = 0
characters (String.◌∷◌ c s) = suc (characters s)

-- `text[:n]`
abbrev pub text_take : ℕ → String → String
text_take zero s = String.[]
text_take (suc n) String.[] = String.[]
text_take (suc n) (String.◌∷◌ c s) = String.◌∷◌ c (text_take n s)

pub characters-append : (s t : String) → characters (str_append s t) ≡ characters s + characters t
characters-append String.[] t = rw (nil-append t) (omega arith)
characters-append (String.◌∷◌ c s) t = rw (cons-append c s t) (omega (arith, characters-append s t))

ends_line-cons :
    (s : String) (d : Char) (u : String)
    → ends_line (str_append s (String.◌∷◌ d u)) ≡ ends_line (String.◌∷◌ d u)
ends_line-cons String.[] d u = rw (nil-append (String.◌∷◌ d u)) refl
ends_line-cons (String.◌∷◌ c String.[]) d u =
    rw (cons-append c String.[] (String.◌∷◌ d u), nil-append (String.◌∷◌ d u)) refl
ends_line-cons (String.◌∷◌ c (String.◌∷◌ e s)) d u =
    ap ends_line (
      cons-append c (String.◌∷◌ e s) (String.◌∷◌ d u)
      ∙ ap (String.◌∷◌ c) (cons-append e s (String.◌∷◌ d u)))
    ∙ ap ends_line (sym (cons-append e s (String.◌∷◌ d u)))
    ∙ ends_line-cons (String.◌∷◌ e s) d u

pub ends_line-feed : (s t : String) → ends_line (str_append s (str_append t feed)) ≡ true
ends_line-feed s t =
    ap ends_line (sym (append_assoc s t feed)) ∙ ends_line-cons (str_append s t) "\n" String.[]
