-- ===== src/Store/Compress.antt =====
-- proxy/internal/logger/compact.go: `compressData` and `decompressData`. The compressor is a third
-- party's; what it writes it reads back.
use lazy_vllm.Prelude.{
  ℕ, ◌≡◌, ap, inl, inr, ◌≤◌, Option, none, some, List, length, leb, arith, Bool-cases,
  if◌then◌else◌, true,
}

pub record Zstd : Type 0 where
  pub encode : List ℕ → List ℕ
  pub decode : List ℕ → Option (List ℕ)
  pub decode-encode : (d : List ℕ) → decode (encode d) ≡ some d

abbrev or_raw : List ℕ → Option (List ℕ) → List ℕ
or_raw raw none = raw
or_raw raw (some out) = out

module _ (z : Zstd) where
  unfoldable pub compress_data : List ℕ → List ℕ
  compress_data d = if leb (length d) (length (z.encode d)) then d else z.encode d

  unfoldable pub decompress_data : List ℕ → List ℕ
  decompress_data d = or_raw d (z.decode d)

  -- Data that is not itself compressed data comes back as it was stored.
  pub decompress-compress : (d : List ℕ) → z.decode d ≡ none → decompress_data (compress_data d) ≡ d
  unfolding decompress_data compress_data
  decompress-compress d h = elim (Bool-cases (leb (length d) (length (z.encode d)))) [
    | inl e ↦ rw e (ap (or_raw d) h)
    | inr e ↦ rw e (ap (or_raw (z.encode d)) (z.decode-encode d))
  ]

  -- Data that is a compressed form of `e`, and that compressing does not shorten, comes back as `e`.
  pub decompress-compress_frame :
      (d e : List ℕ)
      → z.decode d ≡ some e
      → length d ≤ length (z.encode d)
      → decompress_data (compress_data d) ≡ e
  unfolding decompress_data compress_data
  decompress-compress_frame d e h le =
      let long : leb (length d) (length (z.encode d)) ≡ true = ground arith in
      rw long (ap (or_raw d) h)
