-- ===== src/Agent/Logging/Chunks.antt =====
-- agent/internal/agent/executor.go: `streamLogger` reads lines, however its reader cuts the bytes.
use mathlib.Core.List.{append_assoc, append-nil}
use lazy_vllm.Prelude.{
  ℕ, ◌≡◌, refl, sym, ap, ◌∙◌, true, false, List, [], ◌∷◌, ◌++◌, inl, inr, Bool-cases, ◌==◌,
}
use lazy_vllm.Json.Codec.{Codec}
use lazy_vllm.Text.{strip_prefix}
use lazy_vllm.Text.Bytes.{trim_bytes}
use lazy_vllm.Obs.{Bytes}
use lazy_vllm.Obs.Stream.{split_lines, add_to_first}
use lazy_vllm.Agent.Logging.Stream.{
  Seen, StreamLogger, process_line, read_byte, read_bytes, read, ended, last_line, flush_to_log,
}

abbrev pub joined : List Bytes → Bytes → Bytes
joined [] p = p
joined (c ∷ cs) p = c ++ joined cs p

module _ (codec : Codec) where
  -- The lines behind what is buffered: all but the last are processed.
  abbrev pieces : Bytes → List Bytes → Seen → StreamLogger
  pieces buf [] s = record { line_buf = buf; seen = s }
  pieces buf (l ∷ []) s = record { line_buf = buf ++ l; seen = s }
  pieces buf (l ∷ k ∷ ls) s = pieces [] (k ∷ ls) (process_line codec (trim_bytes (buf ++ l)) s)

  abbrev pub process_lines : List Bytes → Seen → Seen
  process_lines [] s = s
  process_lines (l ∷ ls) s = process_lines ls (process_line codec (trim_bytes l) s)

  pieces-add_to_first :
      (buf : Bytes) (c : ℕ) (ls : List Bytes) (s : Seen)
      → pieces (buf ++ c ∷ []) ls s ≡ pieces buf (add_to_first c ls) s
  pieces-add_to_first buf c [] s = refl
  pieces-add_to_first buf c (l ∷ []) s =
      ap (λ b. record { line_buf = b; seen = s }) (append_assoc buf (c ∷ []) l)
  pieces-add_to_first buf c (l ∷ k ∷ ls) s =
      ap (λ b. pieces [] (k ∷ ls) (process_line codec (trim_bytes b) s))
        (append_assoc buf (c ∷ []) l)

  add_to_first_some :
      (c : ℕ) (ls : List Bytes) → (l : Bytes) × (m : List Bytes) × (add_to_first c ls ≡ l ∷ m)
  add_to_first_some c [] = (c ∷ [], [], refl)
  add_to_first_some c (l ∷ ls) = (c ∷ l, ls, refl)

  split_lines_some : (bs : Bytes) → (l : Bytes) × (ls : List Bytes) × (split_lines bs ≡ l ∷ ls)
  unfolding split_lines
  split_lines_some [] = ([], [], refl)
  split_lines_some (b ∷ bs) = elim (Bool-cases (b == 10)) [
    | inl h ↦ ([], split_lines bs, rw h refl)
    | inr h ↦ rw h (add_to_first_some b (split_lines bs))
  ]

  pieces-line :
      (buf : Bytes) (ls : List Bytes) (s : Seen)
      → ((l : Bytes) × (m : List Bytes) × (ls ≡ l ∷ m))
      → pieces [] ls (process_line codec (trim_bytes buf) s) ≡ pieces buf ([] ∷ ls) s
  pieces-line buf ls s (l, m, h) = rw (h, append-nil buf) refl

  -- Reading bytes is processing the lines that they end, and keeping the rest.
  pub read_bytes-pieces :
      (bs buf : Bytes) (s : Seen)
      → read_bytes codec bs (record { line_buf = buf; seen = s }) ≡ pieces buf (split_lines bs) s
  unfolding read_bytes read_byte split_lines
  read_bytes-pieces [] buf s = ap (λ b. record { line_buf = b; seen = s }) (sym (append-nil buf))
  read_bytes-pieces (b ∷ bs) buf s = elim (Bool-cases (b == 10)) [
    | inl h ↦ rw h (
        read_bytes-pieces bs [] (process_line codec (trim_bytes buf) s)
        ∙ pieces-line buf (split_lines bs) s (split_lines_some bs))
    | inr h ↦
        rw h (read_bytes-pieces bs (buf ++ b ∷ []) s ∙ pieces-add_to_first buf b (split_lines bs) s)
  ]

  read_bytes-append :
      (p q : Bytes) (s : StreamLogger)
      → read_bytes codec (p ++ q) s ≡ read_bytes codec q (read_bytes codec p s)
  unfolding read_bytes
  read_bytes-append [] q s = refl
  read_bytes-append (b ∷ p) q s = read_bytes-append p q (read_byte codec b s)

  last_line_lem :
      (buf : Bytes) (s : Seen) → last_line codec buf s ≡ process_line codec (trim_bytes buf) s
  unfolding process_line trim_bytes strip_prefix
  last_line_lem [] s = refl
  last_line_lem (b ∷ bs) s = refl

  ended-pieces :
      (now : ℕ) (ls : List Bytes) (s : Seen)
      → ended codec now (pieces [] ls s)
        ≡ record { line_buf = []; seen = flush_to_log now (process_lines ls s) }
  ended-pieces now [] s = refl
  ended-pieces now (l ∷ []) s =
      ap (λ t. record { line_buf = []; seen = flush_to_log now t }) (last_line_lem l s)
  ended-pieces now (l ∷ k ∷ ls) s = ended-pieces now (k ∷ ls) (process_line codec (trim_bytes l) s)

  -- The reads of a response: `p` is what comes with the error that ends it.
  abbrev pub read_stream : ℕ → List Bytes → Bytes → StreamLogger → StreamLogger
  read_stream now [] p s = read codec now p true s
  read_stream now (c ∷ cs) p s = read_stream now cs p (read codec now c false s)

  read_stream-joined :
      (now : ℕ) (cs : List Bytes) (p : Bytes) (s : StreamLogger)
      → read_stream now cs p s ≡ ended codec now (read_bytes codec (joined cs p) s)
  unfolding read
  read_stream-joined now [] p s = refl
  read_stream-joined now (c ∷ cs) p s =
      read_stream-joined now cs p (read_bytes codec c s)
      ∙ ap (ended codec now) (sym (read_bytes-append c (joined cs p) s))

  -- However the bytes of a response are cut into reads, its lines are processed in order and the
  -- response is logged.
  pub read_stream_lem :
      (now : ℕ) (cs : List Bytes) (p : Bytes) (s : Seen)
      → read_stream now cs p (record { line_buf = []; seen = s }) ≡ record {
        line_buf = [];
        seen = flush_to_log now (process_lines (split_lines (joined cs p)) s);
      }
  read_stream_lem now cs p s =
      read_stream-joined now cs p (record { line_buf = []; seen = s })
      ∙ (ap (ended codec now) (read_bytes-pieces (joined cs p) [] s)
          ∙ ended-pieces now (split_lines (joined cs p)) s)
