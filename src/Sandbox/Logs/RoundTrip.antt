-- ===== src/Sandbox/Logs/RoundTrip.antt =====
-- What the runner emits is what the sandbox reads, whatever was printed before it.
use text.Mathlib.TextPositions.{starts_with-append}
use text.Mathlib.TextLemmas.{nil-append, cons-append, append-nil}
use mathlib.Core.List.{reverse-append, append-nil as append_nil}
use py_faa_s.Prelude.{
  Option, reverse, String, str_append, ◌≡◌, refl, sym, ap, ◌∙◌, true, some, List, [], ◌∷◌, ◌++◌,
  arith,
}
use py_faa_s.Prelude.Lines.{
  characters, splitlines, text_drop, feed, IsLine, ends_line, splitlines-append, splitlines-line,
}
use py_faa_s.Models.{Json}
use py_faa_s.Sandbox.Logs.{
  JsonText, result_prefix, is_result, emit_result, or_next, find_result, parse_result_from_logs,
  format_lines, format_logs,
}

IsLine-append : (s t : String) → IsLine s → IsLine t → IsLine (str_append s t)
IsLine-append String.[] t hs ht = rw (nil-append t) ht
IsLine-append (String.◌∷◌ c s) t hs ht = rw (cons-append c s t) (hs.0, IsLine-append s t hs.1 ht)

text_drop-count : (p t : String) → text_drop (characters p) (str_append p t) ≡ t
text_drop-count String.[] t = nil-append t
text_drop-count (String.◌∷◌ c p) t = rw (cons-append c p t) (text_drop-count p t)

text_drop-prefix : (t : String) → text_drop 12 (str_append result_prefix t) ≡ t
text_drop-prefix t = text_drop-count "SOPM_RESULT:" t

prefix-IsLine : IsLine result_prefix
prefix-IsLine = (
  refl,
  (refl, (refl, (refl, (refl, (refl, (refl, (refl, (refl, (refl, (refl, (refl, tt))))))))))),
)

module _ (json : JsonText) where
  -- The lines of an output that ends with an emitted result.
  splitlines-emit :
      (out : String) (v : Json)
      → IsLine (json.dumps v)
      → ends_line out ≡ true
      → splitlines (str_append out (emit_result json v))
        ≡ splitlines out ++ str_append result_prefix (json.dumps v) ∷ []
  unfolding splitlines
  splitlines-emit out v hl h =
      splitlines-append out (emit_result json v) h
      ∙ ap (λ ls. splitlines out ++ ls)
          (rw (sym (ap (str_append line) (append-nil feed))) (
            splitlines-line line String.[]
              (IsLine-append result_prefix (json.dumps v) prefix-IsLine hl)))
    where
      line : String
      line = str_append result_prefix (json.dumps v)

  is_result-emit : (v : Json) → is_result (str_append result_prefix (json.dumps v)) ≡ true
  is_result-emit v = starts_with-append result_prefix (json.dumps v)

  -- The emitted line is tried first, and the lines before it if it is no JSON.
  pub parse_result_from_logs-emit :
      (out : String) (v : Json)
      → IsLine (json.dumps v)
      → ends_line out ≡ true
      → parse_result_from_logs json (str_append out (emit_result json v))
        ≡ or_next json (json.loads (json.dumps v)) (find_result json (reverse (splitlines out)))
  unfolding parse_result_from_logs find_result
  parse_result_from_logs-emit out v line h =
      rw
        (
          splitlines-emit out v line h,
          reverse-append (splitlines out) (str_append result_prefix (json.dumps v) ∷ []),
        )
        (ground (arith, is_result-emit v, text_drop-prefix (json.dumps v)))

  -- Where `json.loads` reads back what `json.dumps` makes of a value, and that is one line, the
  -- sandbox reads the result that the runner emits after whole lines of output, whatever those lines
  -- are: also after lines that look like a result.
  pub parse_result_from_logs-emit_result :
      (out : String) (v : Json)
      → json.loads (json.dumps v) ≡ some v
      → IsLine (json.dumps v)
      → ends_line out ≡ true
      → parse_result_from_logs json (str_append out (emit_result json v)) ≡ some v
  parse_result_from_logs-emit_result out v back line h =
      parse_result_from_logs-emit out v line h
      ∙ ap (λ (o : Option Json). or_next json o (find_result json (reverse (splitlines out)))) back

  format_lines-append :
      (xs ys : List String) → format_lines (xs ++ ys) ≡ format_lines xs ++ format_lines ys
  unfolding format_lines
  format_lines-append [] ys = refl
  format_lines-append (x ∷ xs) ys = ground (arith, format_lines-append xs ys)

  -- The logs of an execution are those of the whole lines that were printed before the result: a
  -- result that is emitted as one line adds none.
  pub format_logs-emit_result :
      (out : String) (v : Json)
      → IsLine (json.dumps v)
      → ends_line out ≡ true
      → format_logs (str_append out (emit_result json v)) ≡ format_logs out
  unfolding format_logs format_lines
  format_logs-emit_result out v line h = rw (splitlines-emit out v line h) (
      format_lines-append (splitlines out) (str_append result_prefix (json.dumps v) ∷ [])
      ∙ rw (is_result-emit v) (append_nil (format_lines (splitlines out))))
