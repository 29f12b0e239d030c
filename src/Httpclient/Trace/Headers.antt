-- ===== src/Httpclient/Trace/Headers.antt =====
-- About a trace of httpclient/client.go in headers, as it is sent and as it is read.
use svckit.Base.{true, List, [], ◌∷◌, ◌++◌, none, All, ◌≡◌, ◌≢◌, refl, ap, ◌∙◌, arith}
use svckit.Base.Text.{Text, split, join, cut}
use svckit.Base.Text.Laws.{split-append, split_alone, Clear}
use svckit.Httpclient.Trace.Laws.{parse_traceparent-traceparent}
use svckit.Httpclient.Trace.{
  TraceContext, is_hex, traceparent, to_headers, trace_context_from_headers, get, HeaderName, place,
  if_set, chain_header, chain_of, trace_id_header, span_id_header, parent_span_id_header,
  request_id_header, correlation_id_header, user_id_header, traceparent_header,
  service_chain_header, or_fresh,
}

-- A service name without the separator of the chain.
abbrev pub IsPlain : Text → Type 0
IsPlain name = (name ≢ []) × (cut (45 ∷ 62 ∷ []) name ≡ none)

plain-Clear_end : (x : Text) → cut (45 ∷ 62 ∷ []) x ≡ none → Clear (45 ∷ 62 ∷ []) x []
unfolding cut
plain-Clear_end [] h = tt
plain-Clear_end (c ∷ []) h = (ground arith, tt)
plain-Clear_end (c ∷ d ∷ x) h = (ground arith, plain-Clear_end (d ∷ x) (ground arith))

plain-Clear :
    (x rest : Text) → cut (45 ∷ 62 ∷ []) x ≡ none → Clear (45 ∷ 62 ∷ []) x ((45 ∷ 62 ∷ []) ++ rest)
unfolding cut
plain-Clear [] rest h = tt
plain-Clear (c ∷ []) rest h = (ground arith, tt)
plain-Clear (c ∷ d ∷ x) rest h = (ground arith, plain-Clear (d ∷ x) rest (ground arith))

split-join :
    (s : Text) (chain : List Text)
    → All IsPlain (s ∷ chain)
    → split (join (s ∷ chain) (45 ∷ 62 ∷ [])) (45 ∷ 62 ∷ []) ≡ s ∷ chain
unfolding join
split-join s [] h = split_alone 45 (62 ∷ []) s (plain-Clear_end s h.0.1)
split-join s (t ∷ chain) h =
    split-append 45 (62 ∷ []) s _ (plain-Clear s _ h.0.1) ∙ ap (λ r. s ∷ r) (split-join t chain h.1)

get-if_set_self :
    (n : HeaderName) (v : Text) (hs : List (HeaderName × Text))
    → get n hs ≡ []
    → get n (if_set n v hs) ≡ v
unfolding get
get-if_set_self n [] hs h = h
get-if_set_self n (c ∷ v) hs h = ground arith

get-if_set_ne :
    (n m : HeaderName) (v : Text) (hs : List (HeaderName × Text))
    → place m ≢ place n
    → get n (if_set m v hs) ≡ get n hs
unfolding get
get-if_set_ne n m [] hs h = refl
get-if_set_ne n m (c ∷ v) hs h = ground arith

get-cons_self :
    (n : HeaderName) (v : Text) (hs : List (HeaderName × Text)) → get n ((n, v) ∷ hs) ≡ v
unfolding get
get-cons_self n v hs = ground arith

get-cons_ne :
    (n m : HeaderName) (v : Text) (hs : List (HeaderName × Text))
    → place m ≢ place n
    → get n ((m, v) ∷ hs) ≡ get n hs
unfolding get
get-cons_ne n m v hs h = ground arith

get-chain_ne : (n : HeaderName) (chain : List Text) → place n ≢ 7 → get n (chain_header chain) ≡ []
unfolding get chain_header
get-chain_ne n [] h = refl
get-chain_ne n (s ∷ chain) h = ground arith

chain_of_set : (t : Text) → t ≢ [] → chain_of t ≡ split t (45 ∷ 62 ∷ [])
unfolding chain_of
chain_of_set [] h = absurd (h refl)
chain_of_set (c ∷ t) h = refl

join-ne-nil : (s : Text) (chain : List Text) → s ≢ [] → join (s ∷ chain) (45 ∷ 62 ∷ []) ≢ []
unfolding join
join-ne-nil [] chain h = absurd (h refl)
join-ne-nil (c ∷ s) [] h = λ e. cc
join-ne-nil (c ∷ s) (t ∷ chain) h = λ e. cc

chain_of-chain_header :
    (chain : List Text)
    → All IsPlain chain
    → chain_of (get service_chain_header (chain_header chain)) ≡ chain
unfolding get chain_header
chain_of-chain_header [] h = unfold chain_of in refl
chain_of-chain_header (s ∷ chain) h =
    chain_of_set _ (join-ne-nil s chain h.0.0) ∙ split-join s chain h

-- What `Get` reads of the headers of a trace.
record Reads (tc : TraceContext) (hs : List (HeaderName × Text)) : Type 0 where
  trace_id : get trace_id_header hs ≡ tc.trace_id
  span_id : get span_id_header hs ≡ tc.span_id
  parent_span_id : get parent_span_id_header hs ≡ tc.parent_span_id
  request_id : get request_id_header hs ≡ tc.request_id
  correlation_id : get correlation_id_header hs ≡ tc.correlation_id
  user_id : get user_id_header hs ≡ tc.user_id
  traceparent_sent : get traceparent_header hs ≡ traceparent tc
  service_chain :
      get service_chain_header hs ≡ get service_chain_header (chain_header tc.service_chain)

to_headers-Reads : (tc : TraceContext) → Reads tc (to_headers tc)
unfolding to_headers get
to_headers-Reads tc = record {
  trace_id = refl;
  span_id = refl;
  parent_span_id =
      past_traceparent parent_span_id_header (omega arith)
      ∙ get-if_set_self parent_span_id_header _ _ (
          get-if_set_ne parent_span_id_header user_id_header tc.user_id chain (omega arith)
          ∙ get-chain_ne parent_span_id_header tc.service_chain (omega arith));
  request_id = refl;
  correlation_id = refl;
  user_id =
      past_traceparent user_id_header (omega arith)
      ∙ (past_parent user_id_header (omega arith)
          ∙ get-if_set_self user_id_header _ _
              (get-chain_ne user_id_header tc.service_chain (omega arith)));
  traceparent_sent = get-if_set_self traceparent_header _ _ (
      past_parent traceparent_header (omega arith)
      ∙ (get-if_set_ne traceparent_header user_id_header tc.user_id chain (omega arith)
          ∙ get-chain_ne traceparent_header tc.service_chain (omega arith)));
  service_chain =
      past_traceparent service_chain_header (omega arith)
      ∙ (past_parent service_chain_header (omega arith)
          ∙ get-if_set_ne service_chain_header user_id_header tc.user_id chain (omega arith));
}
  where
    chain : List (HeaderName × Text)
    chain = chain_header tc.service_chain

    user : List (HeaderName × Text)
    user = if_set user_id_header tc.user_id chain

    past_parent :
        (n : HeaderName)
        → 2 ≢ place n
        → get n (if_set parent_span_id_header tc.parent_span_id user) ≡ get n user
    past_parent n h = get-if_set_ne n parent_span_id_header tc.parent_span_id user h

    past_traceparent :
        (n : HeaderName)
        → 4 ≢ place n
        → get n (
            if_set traceparent_header
              (traceparent tc)
              (if_set parent_span_id_header tc.parent_span_id user))
          ≡ get n (if_set parent_span_id_header tc.parent_span_id user)
    past_traceparent n h = get-if_set_ne n traceparent_header (traceparent tc) _ h

is_hex-ne-nil : (s : Text) → is_hex s 16 ≡ true → s ≢ []
unfolding is_hex
is_hex-ne-nil [] h = λ _. cc
is_hex-ne-nil (c ∷ s) h = λ e. cc

or_fresh_set : (fresh s : Text) → s ≢ [] → or_fresh fresh s ≡ s
or_fresh_set fresh [] h = absurd (h refl)
or_fresh_set fresh (c ∷ s) h = refl

-- A trace with valid identifiers, whose chain holds no empty name and none with the separator, is
-- read back from its headers with every field as it was but the parent span, which is now the span
-- of the sender.
pub trace_context_from_headers-to_headers :
    (tc : TraceContext) (fresh : Text)
    → is_hex tc.trace_id 32 ≡ true
    → is_hex tc.span_id 16 ≡ true
    → All IsPlain tc.service_chain
    → trace_context_from_headers fresh (to_headers tc) ≡ record tc { parent_span_id = tc.span_id }
unfolding trace_context_from_headers
trace_context_from_headers-to_headers tc fresh ht hs hc =
    let r = to_headers-Reads tc in
    rw (r.traceparent_sent, parse_traceparent-traceparent tc ht hs)
      (ground (
        arith,
        r,
        or_fresh_set fresh tc.span_id (is_hex-ne-nil tc.span_id hs),
        chain_of-chain_header tc.service_chain hc,
      ))
