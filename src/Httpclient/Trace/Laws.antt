-- ===== src/Httpclient/Trace/Laws.antt =====
-- The W3C traceparent form of httpclient/client.go: what it renders parses back.
use mathlib.Core.List.{append_assoc}
use svckit.Base.{
  ℕ, ◌==◌, Bool, true, ◌&&◌, List, [], ◌∷◌, ◌++◌, some, All, ◌≡◌, ◌≢◌, refl, ap, ◌∙◌, sym, arith,
}
use svckit.Base.Text.{Text, split, trim_space}
use svckit.Base.Text.Laws.{split-append, split_alone, Clear-byte, trim_space-ends}
use svckit.Httpclient.Trace.{
  TraceContext, is_hex, is_hex_from, dash, traceparent, parse_traceparent, parse_parts,
}

is_hex_from-All : (z : Bool) (s : Text) → is_hex_from z s ≡ true → All (λ c. c ≢ 45) s
unfolding is_hex_from
is_hex_from-All z [] h = tt
is_hex_from-All z (c ∷ s) h = (ground arith, is_hex_from-All (z && c == 48) s (ground arith))

is_hex-All : (s : Text) (n : ℕ) → is_hex s n ≡ true → All (λ c. c ≢ 45) s
unfolding is_hex
is_hex-All s n h = is_hex_from-All true s (ground arith)

abbrev HasValidIds : TraceContext → Type 0
HasValidIds tc = (is_hex tc.trace_id 32 ≡ true) × (is_hex tc.span_id 16 ≡ true)

traceparent_valid :
    (tc : TraceContext)
    → HasValidIds tc
    → traceparent tc
      ≡ 48 ∷ 48 ∷ 45 ∷ (tc.trace_id ++ (dash ++ (tc.span_id ++ (dash ++ (48 ∷ 49 ∷ [])))))
unfolding traceparent
traceparent_valid tc h = rw (h.0, h.1)

trim_valid :
    (t s : Text)
    → let value = 48 ∷ 48 ∷ 45 ∷ (t ++ (dash ++ (s ++ (dash ++ (48 ∷ 49 ∷ []))))) in
      trim_space value ≡ value
trim_valid t s =
    ap trim_space regroup
    ∙ (trim_space-ends 48 49 (48 ∷ 45 ∷ (t ++ (dash ++ (s ++ (dash ++ (48 ∷ [])))))) refl refl
        ∙ sym regroup)
  where
    regroup :
        ◌≡◌ {A = Text}
          (48 ∷ 48 ∷ 45 ∷ (t ++ (dash ++ (s ++ (dash ++ (48 ∷ 49 ∷ []))))))
          (48 ∷ ((48 ∷ 45 ∷ (t ++ (dash ++ (s ++ (dash ++ (48 ∷ [])))))) ++ 49 ∷ []))
    regroup = simp append_assoc

split_valid :
    (t s : Text)
    → All (λ c. c ≢ 45) t
    → All (λ c. c ≢ 45) s
    → split (48 ∷ 48 ∷ 45 ∷ (t ++ (dash ++ (s ++ (dash ++ (48 ∷ 49 ∷ [])))))) dash
      ≡ (48 ∷ 48 ∷ []) ∷ t ∷ s ∷ (48 ∷ 49 ∷ []) ∷ []
split_valid t s ht hs =
    split-append 45 [] (48 ∷ 48 ∷ []) _
      (Clear-byte 45 [] (48 ∷ 48 ∷ []) _ (ground arith, (ground arith, tt)))
    ∙ ap (λ r. (48 ∷ 48 ∷ []) ∷ r)
        (split-append 45 [] t _ (Clear-byte 45 [] t _ ht)
          ∙ ap (λ r. t ∷ r)
              (split-append 45 [] s _ (Clear-byte 45 [] s _ hs)
                ∙ ap (λ r. s ∷ r)
                    (split_alone 45 [] _
                      (Clear-byte 45 [] (48 ∷ 49 ∷ []) [] (ground arith, (ground arith, tt))))))

-- The traceparent of a trace with valid identifiers parses back to exactly these.
pub parse_traceparent-traceparent :
    (tc : TraceContext)
    → is_hex tc.trace_id 32 ≡ true
    → is_hex tc.span_id 16 ≡ true
    → parse_traceparent (traceparent tc) ≡ some (tc.trace_id, tc.span_id)
unfolding parse_traceparent
parse_traceparent-traceparent tc ht hs =
    rw (traceparent_valid tc (ht, hs), trim_valid tc.trace_id tc.span_id)
      (rw (split_valid tc.trace_id tc.span_id (is_hex-All _ 32 ht) (is_hex-All _ 16 hs))
        (rw (ht, hs)))

-- What parses from a traceparent value are a valid trace identifier and a valid span identifier.
pub parse_traceparent_valid :
    (value trace parent : Text)
    → parse_traceparent value ≡ some (trace, parent)
    → (is_hex trace 32 ≡ true) × (is_hex parent 16 ≡ true)
unfolding parse_traceparent
parse_traceparent_valid value trace parent h = by_parts (split (trim_space value) dash) h
  where
    by_parts :
        (parts : List Text)
        → parse_parts parts ≡ some (trace, parent)
        → (is_hex trace 32 ≡ true) × (is_hex parent 16 ≡ true)
    by_parts [] e = cc
    by_parts (a ∷ []) e = cc
    by_parts (a ∷ b ∷ []) e = cc
    by_parts (a ∷ b ∷ c ∷ []) e = cc
    by_parts (a ∷ b ∷ c ∷ d ∷ r) e = ground arith
