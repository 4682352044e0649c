-- ===== src/Agent/Logging/Agreement.antt =====
-- agent/internal/agent/executor.go and proxy/internal/logger/parse.go: the agent's log of a stream
-- and the proxy's are of the same response.
use lazy_vllm.Prelude.{
  ℕ, ◌≡◌, refl, sym, ap, ◌∙◌, String, Option, none, some, List, [], ◌∷◌, ◌++◌, inl, inr, Bool-cases,
  Option-cases, ◌||◌,
}
use lazy_vllm.Json.Codec.{Codec}
use lazy_vllm.Text.{nat_eq}
use lazy_vllm.Text.Same.{same, same_iff}
use lazy_vllm.Text.Bytes.{trim_bytes}
use lazy_vllm.Obs.{Bytes}
use lazy_vllm.Obs.Stream.{split_lines}
use lazy_vllm.Logger.Outputs.{OutputLog}
use lazy_vllm.Logger.Streams.{
  Gathered, nothing_gathered, done_mark, data_of, openai_chunk, anthropic_chunk, openai_lines,
  anthropic_lines, anthropic_line, output_of, parse_openai_sse, parse_anthropic_sse,
}
use lazy_vllm.Agent.{ChatMessage, ApiFormat, openai, anthropic}
use lazy_vllm.Agent.Logging.{RequestLog, CallLog, add_call, output_log}
use lazy_vllm.Agent.Logging.Stream.{
  Seen, process_line, process_data, process_chunk, response_of, flush_to_log, log_openai_chunk,
  log_anthropic_chunk, accum_openai_chunk, accum_anthropic_chunk,
}
use lazy_vllm.Agent.Logging.Chunks.{process_lines, read_stream, joined, read_stream_lem}

-- A logger at the start of a response that is logged in `r`.
abbrev pub new_seen : ApiFormat → String → List ChatMessage → RequestLog → Seen
new_seen f node msgs r = record {
  format = f;
  response_id = "";
  req_log = some r;
  node_id = node;
  input_msgs = msgs;
  accum = nothing_gathered;
  debug = [];
}

-- No data line stands behind the mark of the end.
abbrev NoData : List Bytes → Type 0
NoData [] = Unit
NoData (l ∷ ls) = (data_of l ≡ none) × NoData ls

abbrev pub DoneLast : List Bytes → Type 0
DoneLast [] = Unit
DoneLast (l ∷ ls) = (data_of l ≡ some done_mark → NoData ls) × DoneLast ls

-- What a stream keeps of its logger: the log, the node and its messages.
abbrev Keeps : Seen → Seen → Type 0
Keeps s t =
    (t.format ≡ s.format)
    × (t.req_log ≡ s.req_log)
    × (t.node_id ≡ s.node_id)
    × (t.input_msgs ≡ s.input_msgs)

module _ (codec : Codec) where
  -- An empty text and the end mark are no JSON.
  abbrev pub Rejects : Type 0
  Rejects = (codec.decode [] ≡ none) × (codec.decode done_mark ≡ none)

  -- The response that a parser of the proxy finds, as a call of the agent's log.
  abbrev pub parsed : ApiFormat → Bytes → OutputLog
  parsed openai body = parse_openai_sse codec body
  parsed anthropic body = parse_anthropic_sse codec body

  process_chunk-Keeps : (f : ApiFormat) (p : Bytes) (s : Seen) → Keeps s (process_chunk codec f p s)
  unfolding log_anthropic_chunk accum_anthropic_chunk log_openai_chunk accum_openai_chunk
  process_chunk-Keeps anthropic p s = (refl, refl, refl, refl)
  process_chunk-Keeps openai p s = (refl, refl, refl, refl)

  process_data-Keeps : (o : Option Bytes) (s : Seen) → Keeps s (process_data codec o s)
  process_data-Keeps none s = (refl, refl, refl, refl)
  process_data-Keeps (some p) s = elim (Bool-cases (same p [] || same p done_mark)) [
    | inl e ↦ rw e (refl, refl, refl, refl)
    | inr e ↦ rw e (process_chunk-Keeps s.format p s)
  ]

  abbrev chunk_of : ApiFormat → Bytes → Gathered → Gathered
  chunk_of openai p g = openai_chunk codec p g
  chunk_of anthropic p g = anthropic_chunk codec p g

  abbrev line_of : ApiFormat → Option Bytes → Gathered → Gathered
  line_of f none g = g
  line_of f (some p) g = chunk_of f p g

  abbrev gather : ApiFormat → List Bytes → Gathered → Gathered
  gather f [] g = g
  gather f (l ∷ ls) g = gather f ls (line_of f (data_of l) g)

  chunk_of-none :
      (f : ApiFormat) (p q : Bytes) (g : Gathered)
      → p ≡ q
      → codec.decode q ≡ none
      → g ≡ chunk_of f p g
  unfolding openai_chunk anthropic_chunk
  chunk_of-none openai p q g e h = rw (e, h) refl
  chunk_of-none anthropic p q g e h = rw (e, h) refl

  -- A chunk is added to what the log's response has so far.
  accum-process_chunk :
      (f : ApiFormat) (p : Bytes) (s : Seen) (r : RequestLog)
      → s.format ≡ f
      → s.req_log ≡ some r
      → (process_chunk codec s.format p s).accum ≡ chunk_of f p s.accum
  unfolding log_openai_chunk accum_openai_chunk log_anthropic_chunk accum_anthropic_chunk
  accum-process_chunk openai p s r e h = rw (e, h) refl
  accum-process_chunk anthropic p s r e h = rw (e, h) refl

  accum-process_data :
      Rejects
      → (f : ApiFormat) (o : Option Bytes) (s : Seen) (r : RequestLog) → s.format ≡ f
      → s.req_log ≡ some r
      → (process_data codec o s).accum ≡ line_of f o s.accum
  accum-process_data rej f none s r e h = refl
  accum-process_data rej f (some p) s r e h = elim (Bool-cases (same p [])) [
    | inl d ↦ rw d (chunk_of-none f p [] s.accum ((same_iff p []).0 d) (rej.0))
    | inr n ↦ elim (Bool-cases (same p done_mark)) [
      | inl d ↦ rw (n, d) (chunk_of-none f p done_mark s.accum ((same_iff p done_mark).0 d) (rej.1))
      | inr d ↦ rw (n, d) (accum-process_chunk f p s r e h)
    ]
  ]

  process_line_lem :
      (l : Bytes) (s : Seen)
      → process_line codec (trim_bytes l) s ≡ process_data codec (data_of l) s
  unfolding process_line data_of
  process_line_lem l s = refl

  accum-process_lines :
      Rejects
      → (f : ApiFormat) (ls : List Bytes) (s : Seen) (r : RequestLog) → s.format ≡ f
      → s.req_log ≡ some r
      → Keeps s (process_lines codec ls s)
        × ((process_lines codec ls s).accum ≡ gather f ls s.accum)
  accum-process_lines rej f [] s r e h = ((refl, refl, refl, refl), refl)
  accum-process_lines rej f (l ∷ ls) s r e h =
      let t : Seen = process_data codec (data_of l) s in
      let (kf, kr, kn, km) = process_data-Keeps (data_of l) s in
      let ((jf, jr, jn, jm), acc) = accum-process_lines rej f ls t r (kf ∙ e) (kr ∙ h) in
      rw (process_lines, process_line_lem l s)
        (
          (jf ∙ kf, jr ∙ kr, jn ∙ kn, jm ∙ km),
          acc ∙ ap (gather f ls) (accum-process_data rej f (data_of l) s r e h),
        )

  anthropic_line_lem :
      (o : Option Bytes) (g : Gathered) → line_of anthropic o g ≡ anthropic_line codec o g
  anthropic_line_lem none g = refl
  anthropic_line_lem (some p) g = refl

  anthropic_lines-gather :
      (ls : List Bytes) (g : Gathered) → gather anthropic ls g ≡ anthropic_lines codec ls g
  unfolding anthropic_lines
  anthropic_lines-gather [] g = refl
  anthropic_lines-gather (l ∷ ls) g =
      ap (gather anthropic ls) (anthropic_line_lem (data_of l) g)
      ∙ anthropic_lines-gather ls (anthropic_line codec (data_of l) g)

  gather-NoData : (ls : List Bytes) (g : Gathered) → NoData ls → gather openai ls g ≡ g
  gather-NoData [] g h = refl
  gather-NoData (l ∷ ls) g (h, hs) = rw h (gather-NoData ls g hs)

  openai_lines-gather :
      Rejects
      → (ls : List Bytes) (g : Gathered) → DoneLast ls
      → gather openai ls g ≡ openai_lines codec ls g
  unfolding openai_lines
  openai_lines-gather rej [] g h = refl
  openai_lines-gather rej (l ∷ ls) g (h, hs) = elim (Option-cases (data_of l)) [
    | inl e ↦ rw e (openai_lines-gather rej ls g hs)
    | inr (p, e) ↦ elim (Bool-cases (same p done_mark)) [
      | inl d ↦
          (let q = (same_iff p done_mark).0 d in
            rw (e, d)
              (ap (gather openai ls) (sym (chunk_of-none openai p done_mark g q (rej.1)))
                ∙ gather-NoData ls g (h (e ∙ ap some q))))
      | inr d ↦ rw (e, d) (openai_lines-gather rej ls (openai_chunk codec p g) hs)
    ]
  ]

  -- What a stream of either format has to be.
  abbrev pub Complete : ApiFormat → Bytes → Type 0
  Complete openai body = DoneLast (split_lines body)
  Complete anthropic body = Unit

  gather-parsed :
      Rejects
      → (f : ApiFormat) (body : Bytes) → Complete f body
      → output_log (response_of (gather f (split_lines body) nothing_gathered)) ≡ parsed f body
  unfolding parse_openai_sse parse_anthropic_sse output_of
  gather-parsed rej openai body h =
      ap (λ g. output_log (response_of g))
        (openai_lines-gather rej (split_lines body) nothing_gathered h)
  gather-parsed rej anthropic body h =
      ap (λ g. output_log (response_of g))
        (anthropic_lines-gather (split_lines body) nothing_gathered)

  -- The entry that a response leaves in the log of its request.
  abbrev pub respond_entry : ℕ → ApiFormat → String → List ChatMessage → Bytes → CallLog
  respond_entry now f node msgs body = record {
    node_id = node;
    node_kind = "respond";
    iteration = 0;
    timestamp = now;
    input = msgs;
    output = parsed f body;
  }

  -- However the bytes of a streamed response are cut into reads, the agent logs one call of its node,
  -- with the content, the reasoning and the tool calls that the proxy's parser of streams finds in
  -- the whole response, if an empty text and the end mark are no JSON and, in the format of OpenAI, no
  -- data line stands behind the end mark.
  pub read_stream-parsed :
      Rejects
      → (now : ℕ) (f : ApiFormat) (node : String) (msgs : List ChatMessage) (r : RequestLog)
        (cs : List Bytes) (p : Bytes)
      → Complete f (joined cs p)
      → (read_stream codec now cs p
          (record { line_buf = []; seen = new_seen f node msgs r })).seen.req_log
        ≡ some (record r { calls = r.calls ++ respond_entry now f node msgs (joined cs p) ∷ [] })
  unfolding flush_to_log add_call
  read_stream-parsed rej now f node msgs r cs p h =
      let s : Seen = new_seen f node msgs r in
      let ls = split_lines (joined cs p) in
      let ((kf, kr, kn, km), acc) = accum-process_lines rej f ls s r refl refl in
      rw (read_stream_lem codec now cs p s, kr, kn, km, acc, gather-parsed rej f (joined cs p) h)
        refl
