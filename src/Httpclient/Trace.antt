-- ===== src/Httpclient/Trace.antt =====
-- The distributed-tracing context of httpclient/client.go: its W3C traceparent form, and the headers
-- that carry it. A header name is one of the package's constants, whose canonical forms differ, or
-- another; identifiers drawn at random are arguments.
pub mod Laws
pub mod Headers
use svckit.Base.{
  ℕ, zero, ◌+◌, leb, ◌==◌, Bool, true, false, not, ◌&&◌, ◌||◌, List, [], ◌∷◌, ◌++◌, Option, none,
  some, if◌then◌else◌, length,
}
use svckit.Base.Text.{Text, codes, split, join, trim_space, is_digit}

pub data HeaderName : Type 0 where
  trace_id_header span_id_header parent_span_id_header request_id_header : HeaderName
  traceparent_header correlation_id_header user_id_header service_chain_header : HeaderName

pub record TraceContext : Type 0 where
  pub trace_id : Text
  pub span_id : Text
  pub parent_span_id : Text
  pub request_id : Text
  pub correlation_id : Text
  pub user_id : Text
  pub service_chain : List Text

-- The fresh identifiers of one call, in the order in which they are drawn.
pub record Fresh : Type 0 where
  pub trace_id : Text
  pub span_id : Text
  pub request_id : Text
  pub correlation_id : Text

-- `NewTraceContext`, on the trace that the context holds, if any.
unfoldable pub new_trace_context : Fresh → Option TraceContext → TraceContext
new_trace_context f none = record {
  trace_id = f.trace_id;
  span_id = f.span_id;
  parent_span_id = [];
  request_id = f.request_id;
  correlation_id = f.correlation_id;
  user_id = [];
  service_chain = [];
}
new_trace_context f (some t) = record {
  trace_id = t.trace_id;
  span_id = f.span_id;
  parent_span_id = t.span_id;
  request_id = t.request_id;
  correlation_id = t.correlation_id;
  user_id = t.user_id;
  service_chain = t.service_chain;
}

unfoldable pub add_to_service_chain : TraceContext → Text → TraceContext
add_to_service_chain tc name = record tc { service_chain = tc.service_chain ++ name ∷ [] }

abbrev pub is_hex_digit : ℕ → Bool
is_hex_digit c = is_digit c || (leb 97 c && leb c 102)

-- The loop of `isHex`: whether all are digits, and then whether all so far are zero.
unfoldable pub is_hex_from : Bool → Text → Bool
is_hex_from all_zero [] = not all_zero
is_hex_from all_zero (c ∷ s) =
    let rest = is_hex_from (all_zero && c == 48) s in if is_hex_digit c then rest else false

unfoldable pub is_hex : Text → ℕ → Bool
unfolding is_hex_from
is_hex s n = if length s == n then is_hex_from true s else false

abbrev pub dash : Text
dash = 45 ∷ []

-- `Traceparent`; the empty text where the identifiers do not fit.
unfoldable pub traceparent : TraceContext → Text
traceparent tc =
    if not (is_hex tc.trace_id 32) || not (is_hex tc.span_id 16)
    then []
    else codes "00" ++ (dash ++ (tc.trace_id ++ (dash ++ (tc.span_id ++ (dash ++ codes "01")))))

parse_parts : List Text → Option (Text × Text)
parse_parts (version ∷ trace ∷ parent ∷ flags ∷ more) =
    if length version == 2 && (is_hex trace 32 && is_hex parent 16)
    then some (trace, parent)
    else none
parse_parts _ = none

-- `parseTraceparent`; `none` for `ok == false`.
unfoldable pub parse_traceparent : Text → Option (Text × Text)
unfolding parse_parts
parse_traceparent value = parse_parts (split (trim_space value) dash)

abbrev pub is_empty : Text → Bool
is_empty [] = true
is_empty (c ∷ s) = false

abbrev pub if_set : HeaderName → Text → List (HeaderName × Text) → List (HeaderName × Text)
if_set name [] headers = headers
if_set name (c ∷ s) headers = (name, c ∷ s) ∷ headers

arrow : Text
arrow = codes "->"

chain_header : List Text → List (HeaderName × Text)
unfolding arrow
chain_header [] = []
chain_header (s ∷ chain) = (service_chain_header, join (s ∷ chain) arrow) ∷ []

-- `ToHeaders`: a map from distinct names, here in the order in which the code fills it.
unfoldable pub to_headers : TraceContext → List (HeaderName × Text)
unfolding chain_header
to_headers tc =
    (trace_id_header, tc.trace_id)
    ∷ (span_id_header, tc.span_id)
    ∷ (request_id_header, tc.request_id)
    ∷ (correlation_id_header, tc.correlation_id)
    ∷ if_set traceparent_header (traceparent tc) (
        if_set parent_span_id_header tc.parent_span_id
          (if_set user_id_header tc.user_id (chain_header tc.service_chain)))

-- The constants are told apart by their canonical forms, here by their places.
abbrev place : HeaderName → ℕ
place trace_id_header = 0
place span_id_header = 1
place parent_span_id_header = 2
place request_id_header = 3
place traceparent_header = 4
place correlation_id_header = 5
place user_id_header = 6
place service_chain_header = 7

-- `headers.Get(name)`: the first value, or the empty text.
unfoldable pub get : HeaderName → List (HeaderName × Text) → Text
get name [] = []
get name ((n, v) ∷ headers) = if place n == place name then v else get name headers

-- `if tc.SpanID == "" { tc.SpanID = generateSpanID() }`
abbrev pub or_fresh : Text → Text → Text
or_fresh fresh [] = fresh
or_fresh fresh (c ∷ s) = c ∷ s

chain_of : Text → List Text
unfolding arrow
chain_of [] = []
chain_of (c ∷ s) = split (c ∷ s) arrow

join_trace : Text → Option (Text × Text) → TraceContext → TraceContext
join_trace fresh none tc = tc
join_trace fresh (some (trace, parent)) tc = record tc {
  trace_id = trace;
  parent_span_id = parent;
  span_id = or_fresh fresh tc.span_id;
}

-- `TraceContextFromHeaders`, with the span identifier that it draws where none is sent.
unfoldable pub trace_context_from_headers : Text → List (HeaderName × Text) → TraceContext
unfolding join_trace chain_of
trace_context_from_headers fresh headers =
    join_trace fresh (parse_traceparent (get traceparent_header headers)) (record {
      trace_id = get trace_id_header headers;
      span_id = get span_id_header headers;
      parent_span_id = get parent_span_id_header headers;
      request_id = get request_id_header headers;
      correlation_id = get correlation_id_header headers;
      user_id = get user_id_header headers;
      service_chain = chain_of (get service_chain_header headers);
    })
