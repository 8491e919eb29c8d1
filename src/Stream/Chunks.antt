-- ===== src/Stream/Chunks.antt =====
-- src/YMStream.c: what a transfer sends, as a list of writes to the stream.
use yammer.Prelude.{
  ℕ, zero, suc, ◌≡◌, refl, ap, ◌∙◌, sym, List, [], ◌∷◌, ◌++◌, take, drop, length, arith, Option,
  none, some,
}
use mathlib.Core.List.{append_assoc}
use yammer.Compression.{Algorithm}
use yammer.Compression.Frames.{frame}
use yammer.Stream.{
  word_bytes, forward_file_end, forward_file_unbounded, forward_file_bounded, buffer_size,
}

-- A file in pieces of `size` bytes, the last one of what is left. The first argument bounds the number
-- of pieces.
abbrev pub chunks_within : ℕ → ℕ → List ℕ → List (List ℕ)
chunks_within zero size bytes = []
chunks_within (suc m) size [] = []
chunks_within (suc m) size (b ∷ bs) = take size (b ∷ bs) ∷ chunks_within m size (drop size (b ∷ bs))

abbrev pub announced : List (List ℕ) → List (List ℕ)
announced [] = []
announced (chunk ∷ chunks) = word_bytes (length chunk) ∷ chunk ∷ announced chunks

-- The writes of a transfer of all of `bytes`: the command, the bound if there is one, the chunks, and
-- for an unbounded transfer a length before each chunk and a command at the end.
abbrev pub messages : Option ℕ → List ℕ → List (List ℕ)
messages (some n) bytes =
    word_bytes forward_file_bounded ∷ word_bytes n ∷ chunks_within (length bytes) buffer_size bytes
messages none bytes =
    word_bytes forward_file_unbounded
    ∷ (announced (chunks_within (length bytes) buffer_size bytes)
        ++ (word_bytes forward_file_end ∷ []))

module _ (compress : List ℕ → List ℕ) (pad : ℕ) where
  -- What a list of writes puts out.
  abbrev pub frames : Algorithm → List (List ℕ) → List ℕ
  frames a [] = []
  frames a (b ∷ bs) = frame compress pad a b ++ frames a bs

  pub frames-append :
      (a : Algorithm) (front back : List (List ℕ))
      → frames a (front ++ back) ≡ frames a front ++ frames a back
  frames-append a [] back = refl
  frames-append a (b ∷ bs) back =
      ap (λ l. frame compress pad a b ++ l) (frames-append a bs back)
      ∙ sym (append_assoc (frame compress pad a b) (frames a bs) (frames a back))

pub length-zero : (bytes : List ℕ) → length bytes ≡ 0 → bytes ≡ []
length-zero [] h = refl
length-zero (b ∷ bs) h = absurd (omega arith)

pub chunks_none : (m size : ℕ) → chunks_within m size [] ≡ []
chunks_none zero size = refl
chunks_none (suc m) size = refl
