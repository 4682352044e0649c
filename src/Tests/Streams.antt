-- ===== src/Tests/Streams.antt =====
-- Streams of proxy/internal/proxy/obs.go. The events are the numbers of their text's characters, and
-- where events are parsed, the JSON codec of these runs reads nothing.
use lazy_vllm.Prelude.{◌≡◌, ◌≢◌, refl, true, none, some, List, [], ◌∷◌, ◌++◌}
use lazy_vllm.Json.Codec.{Codec}
use lazy_vllm.Text.Chars.{Chars, chars}
use lazy_vllm.Text.{index, strip_prefix}
use lazy_vllm.Text.Codes.{codes, of_codes, of_codes-codes}
use lazy_vllm.Obs.{
  Bytes, Capture, searching, new_obs_capture, has_suspicious_tail, handle_text_delta,
}
use lazy_vllm.Obs.View.{Explains}
use lazy_vllm.Obs.Scan.{feed, texts, feed-Explains}
use lazy_vllm.Obs.Split.{handle_text_delta-finds, feed_misses}
use lazy_vllm.Prelude.{take}
use lazy_vllm.Obs.Whole.{split_obs}
use lazy_vllm.Obs.Whole.Agreement.{feed-split_obs}
use lazy_vllm.Obs.Events.{write}
use lazy_vllm.Obs.Events.Chunks.{write-append}

abbrev rebuild_codes : Bytes → Chars → Bytes
rebuild_codes e t = codes t

abbrev text_of : Bytes → Chars
text_of = of_codes

abbrev IsEvent : Bytes → Type 0
IsEvent e = Unit

abbrev start : Capture
start = new_obs_capture true "anthropic"

-- "Hi<o", "bs>note</obs>", " there" in three deltas.
abbrev hi : Chars
unfolding chars
hi = chars "Hi<o"

abbrev note : Chars
unfolding chars
note = chars "bs>note</obs>"

abbrev there : Chars
unfolding chars
there = chars " there"

abbrev deltas : List (Chars × Bytes)
deltas = (hi, codes hi) ∷ (note, codes note) ∷ (there, codes there) ∷ []

feed-Explains_example :
    Explains text_of IsEvent ([] ++ texts deltas) (feed rebuild_codes deltas start)
feed-Explains_example =
    feed-Explains text_of IsEvent rebuild_codes (λ e t d. of_codes-codes t) [] deltas start
      (refl, refl, refl, tt)
      (tt, of_codes-codes hi, (tt, of_codes-codes note, (tt, of_codes-codes there, tt)))

-- The capture after the first delta: it is held.
abbrev held : Capture
held = record start { held_event = some (codes hi); held_text = hi }

handle_text_delta-finds_example :
    (handle_text_delta rebuild_codes note (codes note) held).obs_state ≢ searching
unfolding chars
handle_text_delta-finds_example =
    handle_text_delta-finds rebuild_codes note (chars "Hi") (chars "note</obs>") (codes note) held
      refl refl

-- "<o", "b", "s>x</obs>".
abbrev left : Chars
unfolding chars
left = chars "<o"

abbrev middle : Chars
unfolding chars
middle = chars "b"

abbrev right : Chars
unfolding chars
right = chars "s>x</obs>"

feed_misses_example :
    (feed rebuild_codes
      ((left, codes left) ∷ (middle, codes middle) ∷ (right, codes right) ∷ [])
      start).obs_state
    ≡ searching
unfolding chars index strip_prefix has_suspicious_tail
feed_misses_example =
    feed_misses rebuild_codes left middle right (codes left) (codes middle) (codes right) start refl
      refl refl refl refl refl refl

abbrev no_json : Codec
no_json = record { decode = λ b. none; encode = λ v. [] }

-- "data: x" and a blank line, cut in the middle of the blank line.
write-append_example :
    write no_json
      (10 ∷ [])
      (write no_json (b'd' ∷ b'a' ∷ b't' ∷ b'a' ∷ b':' ∷ b' ' ∷ b'x' ∷ 10 ∷ []) start)
    ≡ write no_json ((b'd' ∷ b'a' ∷ b't' ∷ b'a' ∷ b':' ∷ b' ' ∷ b'x' ∷ 10 ∷ []) ++ (10 ∷ [])) start
write-append_example =
    write-append no_json (b'd' ∷ b'a' ∷ b't' ∷ b'a' ∷ b':' ∷ b' ' ∷ b'x' ∷ 10 ∷ []) (10 ∷ []) start
      refl

-- "Hi<obs>no", "te</obs>".
abbrev opening : Chars
unfolding chars
opening = chars "Hi<obs>no"

abbrev closing : Chars
unfolding chars
closing = chars "te</obs>"

feed-split_obs_example :
    split_obs (opening ++ texts ((closing, codes closing) ∷ []))
    ≡ some (
      (feed rebuild_codes
          ((opening, codes opening) ∷ (closing, codes closing) ∷ [])
          (new_obs_capture true "anthropic")).obs_buf,
      take 2 opening,
    )
unfolding chars index strip_prefix
feed-split_obs_example =
    feed-split_obs rebuild_codes opening (codes opening) "anthropic" 2
      ((closing, codes closing) ∷ []) refl
